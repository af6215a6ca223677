-- ===== src/Api/Routes/Passing.antt =====
-- What the layers that load resources do to a request: they answer it with an error, or pass it on.
use tinydm.Prelude.{
  ◌&&◌, ◌++◌, String, ◌≡◌, refl, ◌∙◌, ap, sym, ◌⊎◌, inl, inr, Bool, true, false, Option, none, some,
  List, [], ◌∷◌, ◌≤◌, arith, ◌==◌, ℕ, Bool-cases, Option-cases, subst,
}
use tinydm.Sql.{Result, ok, err, Conn}
use tinydm.Schema.{Project, Bucket, Document, DocumentVersion, Tables}
use tinydm.Repo.Projects.{get_project}
use tinydm.Repo.Buckets.{get_bucket}
use tinydm.Repo.Documents.{get_document}
use tinydm.Repo.Versions.{get_document_version}
use tinydm.Auth.Rbac.{PermMode}
use tinydm.Api.{Request, Reply, error_body, panicked, Handler}
use tinydm.Api.Context.{project_ctx, bucket_ctx, document_ctx, version_ctx}
use tinydm.Api.Routes.Layers.{
  Layer, with_project, with_bucket, with_document, with_version, needs_auth, audited, needs_admin,
  with_rights, gated, behind, apply,
}

abbrev IsError : Reply → Type 0
IsError (error_body status message) = 400 ≤ status
IsError panicked = Unit
IsError _ = ⊥

-- The answer is an error, and no table has changed.
abbrev pub Stopped : Reply × Conn Tables → Conn Tables → Type 0
Stopped answer c = IsError answer.0 × (answer.1.tables ≡ c.tables)

-- The request is the one before, but for the resources that its context holds.
abbrev pub SameCaller : Request → Request → Type 0
SameCaller r r' =
    (r'.principal ≡ r.principal) × ((r'.rights ≡ r.rights) × (r'.url_param ≡ r.url_param))

-- The handler runs, on a request of the same caller and on the same tables.
abbrev pub Passed : Handler → Request → Conn Tables → Reply × Conn Tables → Type 0
Passed next r c answer =
    (r' : Request) × ((c' : Conn Tables) × (SameCaller r r'
        × ((c'.tables ≡ c.tables) × (answer ≡ next r' c'))))

abbrev Outcome : Handler → Request → Conn Tables → Reply × Conn Tables → Type 0
Outcome next r c answer = Stopped answer c ⊎ Passed next r c answer

module _ (next : Handler) (r : Request) (c : Conn Tables) where
  passed :
      (r' : Request) (c' : Conn Tables)
      → SameCaller r r'
      → c'.tables ≡ c.tables
      → Outcome next r c (next r' c')
  passed r' c' same kept = inr (r', (c', (same, (kept, refl))))

  stopped :
      (status : ℕ) (message : String) (c' : Conn Tables)
      → 400 ≤ status
      → c'.tables ≡ c.tables
      → Outcome next r c (error_body status message, c')
  stopped status message c' h kept = inl (h, kept)

  by : (b a : Reply × Conn Tables) → Outcome next r c b → a ≡ b → Outcome next r c a
  by b a h e = subst (Outcome next r c) (sym e) h

  project_outcome :
      (found : Result (Option Project)) (c' : Conn Tables)
      → get_project (r.url_param "projectID") c ≡ (found, c')
      → c'.tables ≡ c.tables
      → Outcome next r c (project_ctx next r c)
  unfolding project_ctx
  project_outcome (err e) c' load kept =
      by _ _ (stopped 500 "internal error" c' (omega arith) kept) (ground arith)
  project_outcome (ok none) c' load kept =
      by _ _ (stopped 404 "project not found" c' (omega arith) kept) (ground arith)
  project_outcome (ok (some p)) c' load kept =
      by _ _ (passed (record r { project = some p }) c' (refl, (refl, refl)) kept) (ground arith)

  panicked_outcome : (c' : Conn Tables) → c'.tables ≡ c.tables → Outcome next r c (panicked, c')
  panicked_outcome c' kept = inl (tt, kept)

  bucket_outcome :
      (found : Result (Option Bucket)) (c' : Conn Tables)
      → get_bucket (r.url_param "bucketID") c ≡ (found, c')
      → c'.tables ≡ c.tables
      → Outcome next r c (bucket_ctx next r c)
  unfolding bucket_ctx
  bucket_outcome (err e) c' load kept =
      by _ _ (stopped 500 "internal error" c' (omega arith) kept) (ground arith)
  bucket_outcome (ok none) c' load kept =
      by _ _ (stopped 404 "bucket not found" c' (omega arith) kept) (ground arith)
  bucket_outcome (ok (some b)) c' load kept = elim (Option-cases r.project) [
    | inl absent ↦ by _ _ (panicked_outcome c' kept) (ground arith)
    | inr (p, here) ↦ elim (Bool-cases (b.project_id == p.id)) [
      | inl inside ↦
          by _ _ (passed (record r { bucket = some b }) c' (refl, (refl, refl)) kept) (ground arith)
      | inr outside ↦ by _ _ (stopped 404 "bucket not found" c' (omega arith) kept) (ground arith)
    ]
  ]

  document_outcome :
      (found : Result (Option Document)) (c' : Conn Tables)
      → get_document (r.url_param "documentID") c ≡ (found, c')
      → c'.tables ≡ c.tables
      → Outcome next r c (document_ctx next r c)
  unfolding document_ctx
  document_outcome (err e) c' load kept =
      by _ _ (stopped 500 "internal error" c' (omega arith) kept) (ground arith)
  document_outcome (ok none) c' load kept =
      by _ _ (stopped 404 "document not found" c' (omega arith) kept) (ground arith)
  document_outcome (ok (some d)) c' load kept = elim (Option-cases r.bucket) [
    | inl absent ↦ by _ _ (panicked_outcome c' kept) (ground arith)
    | inr (b, here) ↦ elim (Bool-cases (d.bucket_id == b.id)) [
      | inl inside ↦
          by _ _ (passed (record r { document = some d }) c' (refl, (refl, refl)) kept)
            (ground arith)
      | inr outside ↦ by _ _ (stopped 404 "document not found" c' (omega arith) kept) (ground arith)
    ]
  ]

  version_outcome :
      (d : Document) (found : Result (Option DocumentVersion)) (c' : Conn Tables)
      → r.document ≡ some d
      → get_document_version (r.url_param "versionID") d.id c ≡ (found, c')
      → c'.tables ≡ c.tables
      → Outcome next r c (version_ctx next r c)
  unfolding version_ctx
  version_outcome d (err e) c' here load kept =
      by _ _ (stopped 500 "internal error" c' (omega arith) kept) (ground arith)
  version_outcome d (ok none) c' here load kept =
      by _ _ (stopped 404 "version not found" c' (omega arith) kept) (ground arith)
  version_outcome d (ok (some v)) c' here load kept =
      by _ _ (passed (record r { version = some v }) c' (refl, (refl, refl)) kept) (ground arith)

  version_absent : r.document ≡ none → Outcome next r c (version_ctx next r c)
  unfolding version_ctx
  version_absent absent = by _ _ (panicked_outcome c refl) (ground arith)

-- The layers that load resources.
abbrev pub loads : Layer → Bool
loads with_project = true
loads with_bucket = true
loads with_document = true
loads with_version = true
loads _ = false

-- A reading leaves the tables.
module _ (c : Conn Tables) (id : String) where
  get_project_kept : (get_project id c).1.tables ≡ c.tables
  unfolding get_project
  get_project_kept = ground arith

  get_bucket_kept : (get_bucket id c).1.tables ≡ c.tables
  unfolding get_bucket
  get_bucket_kept = ground arith

  get_document_kept : (get_document id c).1.tables ≡ c.tables
  unfolding get_document
  get_document_kept = ground arith

  get_version_kept : (d : String) → (get_document_version id d c).1.tables ≡ c.tables
  unfolding get_document_version
  get_version_kept d = ground arith

module _ (mode : PermMode) (next : Handler) (r : Request) (c : Conn Tables) where
  version_cases : (o : Option Document) → r.document ≡ o → Outcome next r c (version_ctx next r c)
  version_cases none e = version_absent next r c e
  version_cases (some d) e =
      version_outcome next r c d _ _ e refl (get_version_kept c (r.url_param "versionID") d.id)

  layer_outcome : (l : Layer) → loads l ≡ true → Outcome next r c (apply mode l next r c)
  unfolding apply
  layer_outcome with_project h =
      project_outcome next r c _ _ refl (get_project_kept c (r.url_param "projectID"))
  layer_outcome with_bucket h =
      bucket_outcome next r c _ _ refl (get_bucket_kept c (r.url_param "bucketID"))
  layer_outcome with_document h =
      document_outcome next r c _ _ refl (get_document_kept c (r.url_param "documentID"))
  layer_outcome with_version h = version_cases r.document refl
  layer_outcome needs_auth h = cc
  layer_outcome audited h = cc
  layer_outcome needs_admin h = cc
  layer_outcome with_rights h = cc
  layer_outcome (gated action type param ancestors) h = cc

abbrev pub all_load : List Layer → Bool
all_load [] = true
all_load (l ∷ layers) = loads l && all_load layers

module _ (mode : PermMode) where
  pub behind-append :
      (ms rest : List Layer) (h : Handler)
      → behind mode (ms ++ rest) h ≡ behind mode ms (behind mode rest h)
  unfolding behind
  behind-append [] rest h = refl
  behind-append (l ∷ ms) rest h = ap (apply mode l) (behind-append ms rest h)

  onward :
      (next : Handler) (r r' : Request) (c c' : Conn Tables) (answer answer' : Reply × Conn Tables)
      → SameCaller r r'
      → c'.tables ≡ c.tables
      → answer ≡ answer'
      → Outcome next r' c' answer'
      → Outcome next r c answer
  onward next r r' c c' answer answer' (p, (q, u)) kept e (inl (wrong, same)) =
      subst (λ x. Outcome next r c x) (sym e) (inl (wrong, same ∙ kept))
  onward next r r' c c' answer answer' (p, (q, u)) kept e
        (inr (r'', (c'', ((p', (q', u')), (same, ran))))) =
      inr (r'', (c'', ((p' ∙ p, (q' ∙ q, u' ∙ u)), (same ∙ kept, e ∙ ran))))

  -- A list of layers that load resources answers with an error, or passes the request on.
  pub layers_outcome :
      (ms : List Layer) (next : Handler) (r : Request) (c : Conn Tables)
      → all_load ms ≡ true
      → Outcome next r c (behind mode ms next r c)
  unfolding behind
  layers_outcome [] next r c h = passed next r c r c (refl, (refl, refl)) refl
  layers_outcome (l ∷ ms) next r c h =
      elim (layer_outcome mode (behind mode ms next) r c l (ground arith)) [
        | inl stop ↦ inl stop
        | inr (r', (c', (same, (kept, e)))) ↦
            onward next r r' c c' _ _ same kept e (layers_outcome ms next r' c' (ground arith))
      ]
