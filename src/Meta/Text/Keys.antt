-- ===== src/Meta/Text/Keys.antt =====
-- The keys of texts are not the system's.
use tinydm.Prelude.{ℕ, refl, String, ◌||◌, Option, none, some, List, ◌==◌}
use tinydm.Meta.Keys.{NoneReserved, when_found-NoneReserved, if-NoneReserved, put-NoneReserved}
use tinydm.Meta.Defs.{Props, Reader}
use tinydm.Meta.Text.{text_props, extract_text, encoding}

module _ (props : Props) (h : NoneReserved props) where
  text_props-NoneReserved :
      (bytes : List ℕ) (o : Option String) → NoneReserved (text_props bytes o props)
  text_props-NoneReserved bytes none = h
  text_props-NoneReserved bytes (some enc) =
      let found = put-NoneReserved "text.encoding" refl enc props h in
      if-NoneReserved (enc == "utf-8" || enc == "utf-8-bom") _ _
        (put-NoneReserved "text.lines" refl _ _ found) found

  pub extract_text-NoneReserved : (r : Reader) → NoneReserved (extract_text r props)
  unfolding extract_text
  extract_text-NoneReserved r =
      when_found-NoneReserved r.read_all _ _ h
        (λ bytes. text_props-NoneReserved bytes (encoding bytes))
