-- ===== src/Meta/Office/Keys.antt =====
-- The keys of the documents of Office are not the system's.
use tinydm.Prelude.{ℕ, ◌≡◌, refl, String, false, Option, none, some, List, [], ◌∷◌, ◌==◌}
use tinydm.Meta.Keys.{
  NoneReserved, when_found-NoneReserved, no_props-NoneReserved, if-NoneReserved, put-NoneReserved,
  put_nonempty-NoneReserved,
}
use tinydm.Prelude.Int.{ℤ, pos, ltb_ℤ}
use tinydm.Prelude.Texts.{has_prefix}
use tinydm.Meta.Ole.{Summary, parse_ole2_summary_info}
use tinydm.Meta.Defs.{Props, Reader, Decoders, ZipFile, OleEntry}
use tinydm.Meta.Office.{
  core_decoded, core_props, put_count, counts_props, Counts, app_props, extract_ooxml, put_bytes,
  summary_props, summary_read, entries_props, extract_ole2, slide_type, sheet_type, word_type,
  count_of, count_tokens, file_named,
}

module _ (props : Props) (h : NoneReserved props) where
  core_decoded-NoneReserved : (o : Option (String × String)) → NoneReserved (core_decoded o props)
  unfolding core_decoded
  core_decoded-NoneReserved none = h
  core_decoded-NoneReserved (some (title, creator)) =
      put_nonempty-NoneReserved "office.author" refl creator _
        (put_nonempty-NoneReserved "office.title" refl title props h)

  core_props-NoneReserved : (o : Option ZipFile) → NoneReserved (core_props o props)
  unfolding core_props
  core_props-NoneReserved none = h
  core_props-NoneReserved (some f) =
      when_found-NoneReserved f.opened _ _ h (λ o. core_decoded-NoneReserved o.0)

  put_count-NoneReserved :
      (key : String)
      → has_prefix key "sys." ≡ false
      → (o : Option ℤ) → NoneReserved (put_count key o props)
  unfolding put_count
  put_count-NoneReserved key outside none = h
  put_count-NoneReserved key outside (some v) =
      if-NoneReserved (ltb_ℤ (pos 0) v) _ props (put-NoneReserved key outside _ props h) h

  counts_props-NoneReserved :
      (ct : String) (counts : Counts) → NoneReserved (counts_props ct counts props)
  unfolding counts_props
  counts_props-NoneReserved ct counts =
      if-NoneReserved (ct == slide_type) _ _
        (put_count-NoneReserved "office.slide_count" refl (count_of "Slides" counts))
        (if-NoneReserved (ct == sheet_type) _ _
          (put_count-NoneReserved "office.sheet_count" refl (count_of "Sheets" counts))
          (if-NoneReserved (ct == word_type) _ props
            (put_count-NoneReserved "office.word_count" refl (count_of "Words" counts)) h))

  app_props-NoneReserved : (ct : String) (o : Option ZipFile) → NoneReserved (app_props ct o props)
  unfolding app_props
  app_props-NoneReserved ct none = h
  app_props-NoneReserved ct (some f) =
      when_found-NoneReserved f.opened _ _ h
        (λ o. counts_props-NoneReserved ct (count_tokens o.1 "" []))

  put_bytes-NoneReserved :
      (text : List ℕ → String) (key : String)
      → has_prefix key "sys." ≡ false
      → (bytes : List ℕ) → NoneReserved (put_bytes text key bytes props)
  unfolding put_bytes
  put_bytes-NoneReserved text key outside [] = h
  put_bytes-NoneReserved text key outside (b ∷ bytes) = put-NoneReserved key outside _ props h

module _ (text : List ℕ → String) (props : Props) (h : NoneReserved props) where
  summary_props-NoneReserved : (o : Option Summary) → NoneReserved (summary_props text o props)
  unfolding summary_props
  summary_props-NoneReserved none = no_props-NoneReserved
  summary_props-NoneReserved (some s) =
      put_bytes-NoneReserved _ (put_bytes-NoneReserved props h text "office.title" refl s.title)
        text "office.author" refl s.author

  summary_read-NoneReserved : (o : Option (List ℕ)) → NoneReserved (summary_read text o props)
  unfolding summary_read
  summary_read-NoneReserved none = h
  summary_read-NoneReserved (some bytes) =
      summary_props-NoneReserved (parse_ole2_summary_info bytes)

  entries_props-NoneReserved :
      (entries : List OleEntry) → NoneReserved (entries_props text entries props)
  unfolding entries_props
  entries_props-NoneReserved [] = h
  entries_props-NoneReserved (e ∷ entries) =
      if-NoneReserved (e.name == "\u{5}SummaryInformation") _ _
        (summary_read-NoneReserved e.content) (entries_props-NoneReserved entries)

module _ (d : Decoders) (r : Reader) (props : Props) (h : NoneReserved props) where
  pub extract_ooxml-NoneReserved : (ct : String) → NoneReserved (extract_ooxml d ct r props)
  unfolding extract_ooxml
  extract_ooxml-NoneReserved ct =
      let found = put-NoneReserved "office.container" refl "ooxml" props h in
      when_found-NoneReserved r.read_all _ _ found λ bytes.
        when_found-NoneReserved (d.zip bytes) _ _ found λ files.
          app_props-NoneReserved _
            (core_props-NoneReserved _ found (file_named "docProps/core.xml" files)) ct
            (file_named "docProps/app.xml" files)

  pub extract_ole2-NoneReserved : NoneReserved (extract_ole2 d r props)
  unfolding extract_ole2
  extract_ole2-NoneReserved =
      let found = put-NoneReserved "office.container" refl "ole2" props h in
      when_found-NoneReserved r.read_all _ _ found λ bytes.
        when_found-NoneReserved (d.compound_file bytes) _ _ found
          λ entries. entries_props-NoneReserved d.text _ found entries
