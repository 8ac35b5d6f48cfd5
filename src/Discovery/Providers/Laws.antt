-- ===== src/Discovery/Providers/Laws.antt =====
-- state_provider.go and json_file_state_provider.go: what a provider gives back.
use dockyards_talos.Base.{
  String, ◌≡◌, refl, ◌∙◌, Bool, true, false, Option, none, some, List, [], map,
}
use dockyards_talos.Base.Time.{ℤ}
use dockyards_talos.Discovery.Types.{Affiliate, ClusterAffiliate}
use dockyards_talos.Discovery.Providers.{
  StateProvider, Watch, add_watch, Reading, missing, unreadable, content, Files, Json, load_reading,
  load_json, after_write, after_create, save_encoded, save_json, json_file,
}

abbrev pub map_option {ℓ} : {A B : Type ℓ} → (A → B) → Option A → Option B
map_option f none = none
map_option f (some a) = some (f a)

-- What storage makes of an entry: its times may lose precision and its data their form, but the
-- identities stay.
pub record Storage : Type 0 where
  pub kept_affiliate : Affiliate → Affiliate
  pub kept_time : ℤ → ℤ
  pub keeps_id : (a : Affiliate) → (kept_affiliate a).id ≡ a.id

abbrev pub kept : Storage → ClusterAffiliate → ClusterAffiliate
kept st ca = record {
  affiliate = map_option st.kept_affiliate ca.affiliate;
  cluster_id = ca.cluster_id;
  remove_after = st.kept_time ca.remove_after;
}

-- A provider that gives back what was saved last, and what it gave before if nothing was saved.
pub record Keeps (st : Storage) (p : StateProvider) : Type 0 where
  pub load-load : (w : p.State) → (p.load (p.load w).0).1 ≡ (p.load w).1
  pub load-save :
      (l : List ClusterAffiliate) (w : p.State) → (p.load (p.save l w)).1 ≡ map (kept st) l

-- A watch does not change what a provider gives back.
pub add_watch-Keeps :
    (st : Storage) (p : StateProvider) (watch : Option Watch)
    → Keeps st p
    → Keeps st (add_watch p watch)
unfolding add_watch
add_watch-Keeps st p none k = k
add_watch-Keeps st p (some watch) k = record {
  load-load = λ (s, t). k.load-load s;
  load-save = λ l (s, t). k.load-save l s;
}

-- A file system without faults: a created file is empty, a write to an empty file is its content,
-- and `os.WriteFile` leaves its text.
pub record IsReliable (files : Files) : Type 0 where
  pub creates :
      (w : files.State)
      → ((files.create w).1 ≡ true) × (files.read_file (files.create w).0 ≡ content "")
  pub writes :
      (text : String) (w : files.State)
      → files.read_file w ≡ content ""
      → ((files.write text w).1 ≡ true) × (files.read_file (files.write text w).0 ≡ content text)
  pub syncs : (w : files.State) → files.read_file (files.sync w).0 ≡ files.read_file w
  pub writes_file :
      (text : String) (w : files.State) → files.read_file (files.write_file text w).0 ≡ content text

-- The encoding does not fail, and what was encoded reads back as storage keeps it.
pub record IsCodec (st : Storage) (json : Json) : Type 0 where
  pub encodes : (l : List ClusterAffiliate) → (text : String) × (json.encode l ≡ some text)
  pub decodes :
      (l : List ClusterAffiliate) (text : String)
      → json.encode l ≡ some text
      → json.decode text ≡ some (map (kept st) l)
  pub decodes_empty : json.decode "[]" ≡ some []

module _ (files : Files) (r : IsReliable files) where
  read-after_write :
      (text : String) (p : files.State × Bool)
      → p.1 ≡ true
      → files.read_file p.0 ≡ content text
      → files.read_file (after_write files p) ≡ content text
  unfolding after_write
  read-after_write text (w, false) made h = h
  read-after_write text (w, true) made h = r.syncs w ∙ h

  read-after_create :
      (text : String) (p : files.State × Bool)
      → p.1 ≡ true
      → files.read_file p.0 ≡ content ""
      → files.read_file (after_create files text p) ≡ content text
  unfolding after_create
  read-after_create text (w, false) made h = cc
  read-after_create text (w, true) made h =
      let wrote = r.writes text w h in read-after_write text (files.write text w) wrote.0 wrote.1

module _ (st : Storage) (files : Files) (json : Json) (r : IsReliable files)
    (c : IsCodec st json) where
  load-save :
      (l : List ClusterAffiliate) (w : files.State)
      → (load_json files json (save_json files json l w)).1 ≡ map (kept st) l
  unfolding save_json save_encoded load_json load_reading
  load-save l w =
      let (text, e) = c.encodes l in
      let (made, empty) = r.creates w in
      let reads = read-after_create files r text (files.create w) made empty in
      rw (e, reads, c.decodes l text e) refl

  load-load_reading :
      (x : Reading) (w : files.State)
      → files.read_file w ≡ x
      → (load_json files json (load_json files json w).0).1 ≡ (load_json files json w).1
  unfolding load_json load_reading
  load-load_reading missing w e = rw (e, r.writes_file "[]" w, c.decodes_empty) refl
  load-load_reading unreadable w e = rw (e, e) refl
  load-load_reading (content text) w e = rw (e, e) refl

  -- A JSON file on a file system without faults gives back the entries that were saved last.
  pub json_file-Keeps : Keeps st (json_file files json)
  unfolding json_file
  json_file-Keeps = record {
    load-load = λ w. load-load_reading (files.read_file w) w refl;
    load-save = load-save;
  }
