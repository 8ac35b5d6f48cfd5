-- ===== src/Discovery/Providers/Failures.antt =====
-- json_file_state_provider.go: a Save whose calls may fail, and the Load after it.
use dockyards_talos.Base.{
  String, ◌≡◌, refl, sym, ap, ◌∙◌, ◌⊎◌, inl, inr, Bool, true, false, none, some, List, [], map,
  if◌then◌else◌,
}
use dockyards_talos.Discovery.Types.{ClusterAffiliate}
use dockyards_talos.Discovery.Providers.{
  Reading, missing, unreadable, content, Files, Json, or_nil, load_reading, load_json, after_write,
  after_create, save_encoded, save_json,
}
use dockyards_talos.Discovery.Providers.Laws.{Storage, kept, IsCodec}

-- A file system whose calls may fail: a file that cannot be created keeps what it has, and a write
-- to an empty file that fails has written a part of the text that does not parse, as no proper part
-- of a JSON array does. That a sync fails does not change what is read.
pub record IsFaulty (files : Files) (json : Json) : Type 0 where
  pub creates :
      (w : files.State)
      → ((files.create w).1 ≡ true) × (files.read_file (files.create w).0 ≡ content "")
        ⊎ ((files.create w).1 ≡ false) × (files.read_file (files.create w).0 ≡ files.read_file w)
  pub writes :
      (text : String) (w : files.State)
      → files.read_file w ≡ content ""
      → ((files.write text w).1 ≡ true) × (files.read_file (files.write text w).0 ≡ content text)
        ⊎ ((files.write text w).1 ≡ false)
          × ((part : String) × (files.read_file (files.write text w).0 ≡ content part)
              × (json.decode part ≡ none))
  pub syncs : (w : files.State) → files.read_file (files.sync w).0 ≡ files.read_file w

module _ (files : Files) (json : Json) where
  -- What a reading gives.
  abbrev entries_of : Reading → List ClusterAffiliate
  entries_of missing = []
  entries_of unreadable = []
  entries_of (content text) = or_nil (json.decode text)

  load_reading-entries_of :
      (x : Reading) (w : files.State) → (load_reading files json x w).1 ≡ entries_of x
  unfolding load_reading
  load_reading-entries_of missing w = refl
  load_reading-entries_of unreadable w = refl
  load_reading-entries_of (content text) w = refl

  load_json-entries_of :
      (w : files.State) → (load_json files json w).1 ≡ entries_of (files.read_file w)
  unfolding load_json
  load_json-entries_of w = load_reading-entries_of (files.read_file w) w

  module _ (f : IsFaulty files json) where
    read-after_written :
        (p : files.State × Bool) → files.read_file (after_write files p) ≡ files.read_file p.0
    unfolding after_write
    read-after_written (w, false) = refl
    read-after_written (w, true) = f.syncs w

    entries_of-after_create :
        (text : String) (p : files.State × Bool) (old : Reading)
        → (p.1 ≡ true) × (files.read_file p.0 ≡ content "")
          ⊎ (p.1 ≡ false) × (files.read_file p.0 ≡ old)
        → entries_of (files.read_file (after_create files text p)) ≡ (
            if p.1
            then (if (files.write text p.0).1 then or_nil (json.decode text) else [])
            else entries_of old)
    unfolding after_create
    entries_of-after_create text (w, false) old (inl (made, empty)) = cc
    entries_of-after_create text (w, false) old (inr (failed, same)) = ap entries_of same
    entries_of-after_create text (w, true) old (inr (failed, same)) = cc
    entries_of-after_create text (w, true) old (inl (made, empty)) =
        ap entries_of (read-after_written (files.write text w)) ∙ elim (f.writes text w empty) [
          | inl (wrote, whole) ↦ rw (wrote, whole) refl
          | inr (failed, (part, torn, unparsed)) ↦ rw (failed, torn, unparsed) refl
        ]

    pub load_json-save_json :
        (st : Storage) (l : List ClusterAffiliate) (text : String) (w : files.State)
        → IsCodec st json
        → json.encode l ≡ some text
        → (load_json files json (save_json files json l w)).1 ≡ (
            if (files.create w).1
            then (if (files.write text (files.create w).0).1 then map (kept st) l else [])
            else (load_json files json w).1)
    unfolding save_json save_encoded
    load_json-save_json st l text w codec encoded =
        let saved =
          entries_of-after_create text (files.create w) (files.read_file w) (f.creates w) in
        load_json-entries_of (save_encoded files json (json.encode l) w)
        ∙ ap (λ o. entries_of (files.read_file (save_encoded files json o w))) encoded
        ∙ saved
        ∙ ap
            (λ o.
              if (files.create w).1
              then (if (files.write text (files.create w).0).1 then or_nil o else [])
              else entries_of (files.read_file w))
            (codec.decodes l text encoded)
        ∙ ap
            (λ old.
              if (files.create w).1
              then (if (files.write text (files.create w).0).1 then map (kept st) l else [])
              else old)
            (sym (load_json-entries_of w))
