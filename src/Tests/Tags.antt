-- ===== src/Tests/Tags.antt =====
-- Replacing the tags and the properties of a document.
use tinydm.Prelude.{eqb, String, none, some, List, [], ◌∷◌, if◌then◌else◌}
use tinydm.Sql.{Conn}
use tinydm.Schema.{Tables}
use tinydm.Tests.{conn}

abbrev new_tags : List String
new_tags = "x" ∷ "" ∷ "y" ∷ []

-- The driver fails at the third statement, the first INSERT.
abbrev failing : Conn Tables
failing = record conn {
  world = λ n. record { fault = if eqb n 2 then some "disk full" else none; now = "now" };
}

abbrev new_props : List (String × String)
new_props = ("colour", "blue") ∷ []
