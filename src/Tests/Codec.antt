-- ===== src/Tests/Codec.antt =====
-- A file system and an encoding of slices of affiliates, to apply the theorems on the state
-- providers (internal/discovery) to. The encoding keeps the identities: a text is a row of pairs of
-- a tag and a character, and is read from its end.
use Prim.Native.Char.{Char, code}
use dockyards_talos.Base.{
  String, ◌≡◌, refl, Option, none, some, List, [], ◌∷◌, map, true, if◌then◌else◌, nat_eq,
}
use dockyards_talos.Base.Time.{pos}
use dockyards_talos.Discovery.Types.{Affiliate, ClusterAffiliate}
use dockyards_talos.Discovery.Providers.{Reading, missing, content, Files, Json}
use dockyards_talos.Discovery.Providers.Laws.{map_option, Storage, kept, IsReliable, IsCodec}

-- The entries that were read, and the identities of the entry that is being read.
abbrev pub Reader : Type 0
Reader = List ClusterAffiliate × String × String

abbrev with_id : String → Affiliate
with_id id = record { id = id; contents = none; endpoints = [] }

abbrev entry_of : Option Affiliate → String → ClusterAffiliate
entry_of o cluster_id = record { affiliate = o; cluster_id = cluster_id; remove_after = pos 0 }

abbrev read_pair : Char → Char → Reader → Reader
read_pair t d (l, cluster_id, id) =
    if nat_eq (code t) 91
    then (l, cluster_id, id)
    else if nat_eq (code t) 99
    then (l, String.◌∷◌ d cluster_id, id)
    else if nat_eq (code t) 105
    then (l, cluster_id, String.◌∷◌ d id)
    else if nat_eq (code t) 83
    then (entry_of (some (with_id id)) cluster_id ∷ l, "", "")
    else (entry_of none cluster_id ∷ l, "", "")

abbrev read_rest : Char → Char → Option Reader → Option Reader
read_rest t d none = none
read_rest t d (some r) = some (read_pair t d r)

abbrev read_text : String → Option Reader
read_text String.[] = some ([], "", "")
read_text (String.◌∷◌ t String.[]) = none
read_text (String.◌∷◌ t (String.◌∷◌ d s)) = read_rest t d (read_text s)

abbrev write_string : Char → String → String → String
write_string t String.[] rest = rest
write_string t (String.◌∷◌ d s) rest = String.◌∷◌ t (String.◌∷◌ d (write_string t s rest))

abbrev write_affiliate : Option Affiliate → String → String → String
write_affiliate none cluster_id rest =
    String.◌∷◌ "N" (String.◌∷◌ " " (write_string "c" cluster_id rest))
write_affiliate (some a) cluster_id rest =
    String.◌∷◌ "S" (String.◌∷◌ " " (write_string "c" cluster_id (write_string "i" a.id rest)))

abbrev pub write_entries : List ClusterAffiliate → String
write_entries [] = ""
write_entries (ca ∷ l) = write_affiliate ca.affiliate ca.cluster_id (write_entries l)

abbrev first_of : Option Reader → Option (List ClusterAffiliate)
first_of none = none
first_of (some r) = some r.0

abbrev pub identities : Storage
identities = record {
  kept_affiliate = λ a. with_id a.id;
  kept_time = λ t. pos 0;
  keeps_id = λ a. refl;
}

abbrev pub pairs : Json
pairs = record { encode = λ l. some (write_entries l); decode = λ s. first_of (read_text s) }

read-write_cluster :
    (s rest id : String) (l : List ClusterAffiliate)
    → read_text rest ≡ some (l, "", id)
    → read_text (write_string "c" s rest) ≡ some (l, s, id)
read-write_cluster String.[] rest id l e = e
read-write_cluster (String.◌∷◌ d s) rest id l e = rw (read-write_cluster s rest id l e) refl

read-write_id :
    (s rest : String) (l : List ClusterAffiliate)
    → read_text rest ≡ some (l, "", "")
    → read_text (write_string "i" s rest) ≡ some (l, "", s)
read-write_id String.[] rest l e = e
read-write_id (String.◌∷◌ d s) rest l e = rw (read-write_id s rest l e) refl

read-write_affiliate :
    (o : Option Affiliate) (cluster_id rest : String) (l : List ClusterAffiliate)
    → read_text rest ≡ some (l, "", "")
    → read_text (write_affiliate o cluster_id rest)
      ≡ some (entry_of (map_option identities.kept_affiliate o) cluster_id ∷ l, "", "")
read-write_affiliate none cluster_id rest l e = rw (read-write_cluster cluster_id rest "" l e) refl
read-write_affiliate (some a) cluster_id rest l e =
    rw (read-write_cluster cluster_id _ a.id l (read-write_id a.id rest l e)) refl

read-write_entries :
    (l : List ClusterAffiliate)
    → read_text (write_entries l) ≡ some (map (kept identities) l, "", "")
read-write_entries [] = refl
read-write_entries (ca ∷ l) =
    read-write_affiliate ca.affiliate ca.cluster_id (write_entries l) _ (read-write_entries l)

pub pairs-IsCodec : IsCodec identities pairs
pairs-IsCodec = record {
  encodes = λ l. (write_entries l, refl);
  decodes = λ l text same. read_back l text same;
  decodes_empty = refl;
}
  where
    read_back :
        (l : List ClusterAffiliate) (text : String)
        → ◌≡◌ {A = Option String} (some (write_entries l)) (some text)
        → first_of (read_text text) ≡ some (map (kept identities) l)
    read_back l text same =
        let e : write_entries l ≡ text = cc in rw (← e, read-write_entries l) refl

abbrev pub reading : Option String → Reading
reading none = missing
reading (some text) = content text

-- A disk with one file, which may be missing.
abbrev pub disk : Files
disk = record {
  State = Option String;
  read_file = reading;
  write_file = λ text w. (some text, true);
  create = λ w. (some "", true);
  write = λ text w. (some text, true);
  sync = λ w. (w, true);
}

pub disk-IsReliable : IsReliable disk
disk-IsReliable = record {
  creates = λ w. (refl, refl);
  writes = λ text w empty. (refl, refl);
  syncs = λ w. refl;
  writes_file = λ text w. refl;
}
