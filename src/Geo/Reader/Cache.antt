-- ===== src/Geo/Reader/Cache.antt =====
-- What a reader answers is what decoding the file afresh would give.
use edge_route_gw.Prelude.{
  ℕ, String, true, ◌&&◌, ◌||◌, List, [], Option, none, some, is_some, if◌then◌else◌, ◌≡◌, refl, sym,
  ap, ◌∙◌, str_eq, eq_iff, inl, inr, Bool-cases, Option-cases, arith,
}
use edge_route_gw.Prelude.Dict.{lookup, insert, lookup-insert}
use edge_route_gw.Text.{to_lower}
use edge_route_gw.Geo.{Wire, Decoded, ok, bad, stuck}
use edge_route_gw.Geo.Loops.{is_ok, is_error, is_stuck, Decoded-cases}
use edge_route_gw.Geo.Sites.{split_list}
use edge_route_gw.Geo.Reader.{
  FileId, Disk, no_stat, no_read, no_parse, no_tag, no_decode, Answer, found, failed, endless,
  Reader, is_loaded, reload, after, ensure, ensure_at, raw_of, items_of, decode_raw, take_tag,
  id_eq,
}

module _ {A : Type 0} (w : Wire) (decode : List ℕ → Decoded (List A)) where
  abbrev pub answer_decoded : Decoded (List A) → Answer (List A)
  answer_decoded (ok items) = found items
  answer_decoded bad = failed no_decode
  answer_decoded stuck = endless

  abbrev pub answer_raw : Option (List ℕ) → Answer (List A)
  answer_raw none = failed no_tag
  answer_raw (some msg) = answer_decoded (decode msg)

  abbrev pub answer_split : String → Decoded (List (String × List ℕ)) → Answer (List A)
  answer_split key (ok raw) = answer_raw (lookup key raw)
  answer_split key bad = failed no_parse
  answer_split key stuck = endless

  -- The items of a tag, decoded from the bytes of a file.
  abbrev pub fresh : String → List ℕ → Answer (List A)
  fresh key bytes = answer_split key (split_list w bytes)

  -- What a reader holds comes from the file with the reader's id.
  pub record IsCurrent (file : FileId → List ℕ) (s : Reader A) : Type 0 where
    pub split_from :
        (raw : List (String × List ℕ)) → s.raw ≡ some raw → split_list w (file s.id) ≡ ok raw
    pub decoded_from :
        (key : String) (items : List A)
        → lookup key s.decoded ≡ some items
        → answer_raw (lookup key (raw_of s.raw)) ≡ found items

  -- If the file can be read, it is the one with the id that os.Stat gave.
  abbrev pub IsDiskOf : (FileId → List ℕ) → Disk → Type 0
  IsDiskOf file disk =
      (id : FileId) (bytes : List ℕ)
      → disk.stat ≡ some id
      → disk.content ≡ some bytes
      → bytes ≡ file id

  abbrev pub expected_at :
      (FileId → List ℕ) → String → Disk → Reader A → Option FileId → Answer (List A)
  expected_at file key disk s none = failed no_stat
  expected_at file key disk s (some id) =
      if is_loaded s id || is_some disk.content then fresh key (file id) else failed no_read

  -- The answer for the file that is there at the time of the call.
  abbrev pub expected : (FileId → List ℕ) → String → Disk → Reader A → Answer (List A)
  expected file key disk s = expected_at file key disk s disk.stat

  module _ (file : FileId → List ℕ) where
    fresh_held :
        (key : String) (s : Reader A) (raw : List (String × List ℕ))
        → IsCurrent file s
        → s.raw ≡ some raw
        → answer_raw (lookup key (raw_of s.raw)) ≡ fresh key (file s.id)
    fresh_held key s raw cur loaded =
        ap (λ r. answer_raw (lookup key (raw_of r))) loaded
        ∙ ap (answer_split key) (sym (cur.split_from raw loaded))

    abbrev Good : String → Reader A → Reader A × Answer (List A) → Type 0
    Good key s (s', answer) = (answer ≡ answer_raw (lookup key (raw_of s.raw))) × IsCurrent file s'

    insert-IsCurrent :
        (key : String) (items : List A) (s : Reader A)
        → answer_raw (lookup key (raw_of s.raw)) ≡ found items
        → IsCurrent file s
        → IsCurrent file (record s { decoded = insert key items s.decoded })
    insert-IsCurrent key items s e cur = record {
      split_from = cur.split_from;
      decoded_from =
          λ other held h. from other held (sym (lookup-insert key other items s.decoded) ∙ h);
    }
      where
        from :
            (other : String) (held : List A)
            → (if str_eq key other then some items else lookup other s.decoded) ≡ some held
            → answer_raw (lookup other (raw_of s.raw)) ≡ found held
        from other held h = elim (Bool-cases (str_eq key other)) [
          | inl same ↦
              let k : key ≡ other = (eq_iff key other).0 same in
              let i : some items ≡ some held = rw same at h in
              sym (ap (λ k'. answer_raw (lookup k' (raw_of s.raw))) k)
              ∙ e
              ∙ (let j : items ≡ held = cc in ap found j)
          | inr other_key ↦ cur.decoded_from other held (rw other_key at h)
        ]

    decode_raw-Good :
        (key : String) (s : Reader A) (msg : Option (List ℕ))
        → lookup key (raw_of s.raw) ≡ msg
        → IsCurrent file s
        → Good key s (decode_raw decode key s msg)
    decode_raw-Good key s none e cur = (ap answer_raw (sym e), cur)
    decode_raw-Good key s (some msg) e cur = elim (Decoded-cases (decode msg)) [
      | is_ok items d ↦
          let held : answer_raw (lookup key (raw_of s.raw)) ≡ found items =
            ap answer_raw e ∙ ap answer_decoded d in
          rw d (sym held, insert-IsCurrent key items s held cur)
      | is_error d ↦ rw d (sym (ap answer_raw e ∙ ap answer_decoded d), cur)
      | is_stuck d ↦ rw d (sym (ap answer_raw e ∙ ap answer_decoded d), cur)
    ]

    take_tag-Good :
        (key : String) (s : Reader A) → IsCurrent file s → Good key s (take_tag decode key s)
    take_tag-Good key s cur = elim (Option-cases (lookup key s.decoded)) [
      | inl e ↦ rw e (decode_raw-Good key s (lookup key (raw_of s.raw)) refl cur)
      | inr (items, e) ↦ rw e (sym (cur.decoded_from key items e), cur)
    ]

    abbrev Ensured : String → Answer (List A) → Reader A × Answer (Unit {0}) → Type 0
    Ensured key answer (s, found _) =
        IsCurrent file s × (answer_raw (lookup key (raw_of s.raw)) ≡ answer)
    Ensured key answer (s, failed e) = IsCurrent file s × (failed e ≡ answer)
    Ensured key answer (s, endless) = IsCurrent file s × (endless ≡ answer)

    -- A file that was just split.
    stored-IsCurrent :
        (id : FileId) (raw : List (String × List ℕ))
        → split_list w (file id) ≡ ok raw
        → IsCurrent file (record { id = id; raw = some raw; decoded = [] })
    unfolding lookup
    stored-IsCurrent id raw e = record {
      split_from = λ r h. let same : raw ≡ r = cc in e ∙ ap ok same;
      decoded_from = λ key items h. absurd (let g = h in cc);
    }

    reload-Ensured :
        (key : String) (id : FileId) (content : Option (List ℕ)) (s : Reader A)
        → IsCurrent file s
        → ((bytes : List ℕ) → content ≡ some bytes → bytes ≡ file id)
        → Ensured key
            (if is_some content then fresh key (file id) else failed no_read)
            (reload w id content s)
    reload-Ensured key id none s cur honest = (cur, refl)
    reload-Ensured key id (some bytes) s cur honest =
        let same : split_list w (file id) ≡ split_list w bytes =
          ap (split_list w) (sym (honest bytes refl)) in
        elim (Decoded-cases (split_list w bytes)) [
          | is_ok raw e ↦
              rw e (stored-IsCurrent id raw (same ∙ e), sym (ap (answer_split key) (same ∙ e)))
          | is_error e ↦ rw e (cur, sym (ap (answer_split key) (same ∙ e)))
          | is_stuck e ↦ rw e (cur, sym (ap (answer_split key) (same ∙ e)))
        ]

    id_eq-eq : (a b : FileId) → id_eq a b ≡ true → a ≡ b
    id_eq-eq a b h = ground arith

    loaded-ensured :
        (key : String) (id : FileId) (s : Reader A) (raw : Option (List (String × List ℕ)))
        → s.raw ≡ raw
        → (is_some raw && id_eq id s.id) ≡ true
        → IsCurrent file s
        → answer_raw (lookup key (raw_of s.raw)) ≡ fresh key (file id)
    loaded-ensured key id s none e h cur = absurd (let g = h in cc)
    loaded-ensured key id s (some raw) e h cur =
        fresh_held key s raw cur e ∙ ap (λ i. fresh key (file i)) (sym (id_eq-eq id s.id h))

    ensure_at-Ensured :
        (key : String) (disk : Disk) (s : Reader A) (stat : Option FileId)
        → IsCurrent file s
        → ((id : FileId) (bytes : List ℕ)
            → stat ≡ some id
            → disk.content ≡ some bytes
            → bytes ≡ file id)
        → Ensured key (expected_at file key disk s stat) (ensure_at w disk stat s)
    ensure_at-Ensured key disk s none cur honest = (cur, refl)
    ensure_at-Ensured key disk s (some id) cur honest = elim (Bool-cases (is_loaded s id)) [
      | inl e ↦ rw e (cur, loaded-ensured key id s s.raw refl e cur)
      | inr e ↦ rw e (reload-Ensured key id disk.content s cur (λ bytes. honest id bytes refl))
    ]

    after-good :
        (key : String) (answer : Answer (List A)) (r : Reader A × Answer (Unit {0}))
        → Ensured key answer r
        → ((after (take_tag decode key) r).1 ≡ answer)
          × IsCurrent file (after (take_tag decode key) r).0
    after-good key answer (s, found _) (cur, e) =
        let (same, kept) = take_tag-Good key s cur in (same ∙ e, kept)
    after-good key answer (s, failed x) (cur, e) = (e, cur)
    after-good key answer (s, endless) (cur, e) = (e, cur)

    -- If the file is the one with the id that os.Stat gives, and the reader holds what came from files
    -- with its ids, then a tag's items are what decoding that file afresh gives, cached or not: an
    -- unknown tag and a file or a message that cannot be decoded are errors, and so is a file that
    -- cannot be found, or cannot be read where it is not held. The reader holds again what came from
    -- files with its ids.
    pub items_of-expected :
        (disk : Disk) (tag : String) (s : Reader A)
        → IsDiskOf file disk
        → IsCurrent file s
        → ((items_of decode w disk tag s).1 ≡ expected file (to_lower tag) disk s)
          × IsCurrent file (items_of decode w disk tag s).0
    unfolding items_of ensure
    items_of-expected disk tag s honest cur =
        after-good (to_lower tag) _ (ensure_at w disk disk.stat s)
          (ensure_at-Ensured (to_lower tag) disk s disk.stat cur honest)
