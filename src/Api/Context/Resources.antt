-- ===== src/Api/Context/Resources.antt =====
-- The resource middleware of internal/api/context.go, nested as internal/api/routes.go nests it.
use tinydm.Prelude.{
  ap, ◌∙◌, refl, ℕ, String, ◌≡◌, ◌⊎◌, inl, inr, some, arith, Option-cases, Bool-cases, eq_iff, ◌==◌,
}
use tinydm.Sql.{Conn}
use tinydm.Sql.Quiet.{ticked}
use tinydm.Sql.Table.Find.{find}
use tinydm.Schema.{Project, Bucket, Document, Tables}
use tinydm.Repo.Projects.{get_project}
use tinydm.Repo.Buckets.{get_bucket}
use tinydm.Repo.Documents.{get_document}
use tinydm.Api.{Request, Reply, error_body, Handler}
use tinydm.Api.Context.{project_ctx, bucket_ctx, document_ctx}

-- The middleware has refused, and changed no table.
abbrev pub Refused : Reply × Conn Tables → Conn Tables → Type 0
Refused answer c =
    (status : ℕ) × ((message : String) × ((answer.0 ≡ error_body status message)
        × (answer.1.tables ≡ c.tables)))

abbrev pub with_project : Request → Project → Request
with_project r p = record r { project = some p }

abbrev pub with_bucket : Request → Bucket → Request
with_bucket r b = record r { bucket = some b }

abbrev pub with_document : Request → Document → Request
with_document r d = record r { document = some d }

module _ (h : Handler) (r : Request) (c : Conn Tables) where
  project_cases :
      Refused (project_ctx h r c) c
      ⊎ ((p : Project) × ((find (λ p. p.id) (r.url_param "projectID") c.tables.projects ≡ some p)
            × (project_ctx h r c ≡ h (with_project r p) (ticked c))))
  unfolding project_ctx get_project
  project_cases = elim (Option-cases (c.world c.tick).fault) [
    | inr failed ↦ inl (500, ("internal error", (ground arith, ground arith)))
    | inl quiet ↦
        elim (Option-cases (find (λ p. p.id) (r.url_param "projectID") c.tables.projects)) [
          | inl absent ↦ inl (404, ("project not found", (ground arith, ground arith)))
          | inr (p, found) ↦ inr (p, (found, ground arith))
        ]
  ]

  bucket_cases :
      (p : Project)
      → r.project ≡ some p
      → Refused (bucket_ctx h r c) c
        ⊎ ((b : Bucket) × ((find (λ b. b.id) (r.url_param "bucketID") c.tables.buckets ≡ some b)
              × ((b.project_id ≡ p.id) × (bucket_ctx h r c ≡ h (with_bucket r b) (ticked c)))))
  unfolding bucket_ctx get_bucket
  bucket_cases p inside = elim (Option-cases (c.world c.tick).fault) [
    | inr failed ↦ inl (500, ("internal error", (ground arith, ground arith)))
    | inl quiet ↦ elim (Option-cases (find (λ b. b.id) (r.url_param "bucketID") c.tables.buckets)) [
      | inl absent ↦ inl (404, ("bucket not found", (ground arith, ground arith)))
      | inr (b, found) ↦ elim (Bool-cases (b.project_id == p.id)) [
        | inl same ↦ inr (b, (found, ((eq_iff b.project_id p.id).0 same, ground arith)))
        | inr other ↦ inl (404, ("bucket not found", (ground arith, ground arith)))
      ]
    ]
  ]

  document_cases :
      (b : Bucket)
      → r.bucket ≡ some b
      → Refused (document_ctx h r c) c
        ⊎ ((d : Document) × ((find (λ d. d.id) (r.url_param "documentID") c.tables.documents
                ≡ some d)
              × ((d.bucket_id ≡ b.id) × (document_ctx h r c ≡ h (with_document r d) (ticked c)))))
  unfolding document_ctx get_document
  document_cases b inside = elim (Option-cases (c.world c.tick).fault) [
    | inr failed ↦ inl (500, ("internal error", (ground arith, ground arith)))
    | inl quiet ↦
        elim (Option-cases (find (λ d. d.id) (r.url_param "documentID") c.tables.documents)) [
          | inl absent ↦ inl (404, ("document not found", (ground arith, ground arith)))
          | inr (d, found) ↦ elim (Bool-cases (d.bucket_id == b.id)) [
            | inl same ↦ inr (d, (found, ((eq_iff d.bucket_id b.id).0 same, ground arith)))
            | inr other ↦ inl (404, ("document not found", (ground arith, ground arith)))
          ]
        ]
  ]

-- What the handler of a document's route is given: live rows with the identifiers of the path, each
-- inside the one before.
abbrev pub Reached : Handler → Request → Conn Tables → Reply × Conn Tables → Type 0
Reached h r c answer =
    (p : Project) × ((b : Bucket) × ((d : Document) × ((find (λ p. p.id) (r.url_param "projectID")
              c.tables.projects
            ≡ some p)
          × ((find (λ b. b.id) (r.url_param "bucketID") c.tables.buckets ≡ some b)
              × ((find (λ d. d.id) (r.url_param "documentID") c.tables.documents ≡ some d)
                  × ((b.project_id ≡ p.id)
                      × ((d.bucket_id ≡ b.id)
                          × (answer
                              ≡ h (with_document (with_bucket (with_project r p) b) d)
                                  (ticked (ticked (ticked c)))))))))))

Refused-again :
    (answer answer' : Reply × Conn Tables) (c : Conn Tables)
    → answer' ≡ answer
    → Refused answer c
    → Refused answer' c
Refused-again answer answer' c e (status, (message, (body, same))) =
    (status, (message, (ap (λ a. a.0) e ∙ body, ap (λ a. a.1.tables) e ∙ same)))

-- Behind `ProjectCtx`, `BucketCtx` and `DocumentCtx` a handler either does not run, the reply is an
-- error and no table has changed, or it runs on the live project, bucket and document that the path
-- names, the bucket one of the project and the document one of the bucket. Nothing panics.
pub document_ctx_lem :
    (h : Handler) (r : Request) (c : Conn Tables)
    → Refused (project_ctx (bucket_ctx (document_ctx h)) r c) c
      ⊎ Reached h r c (project_ctx (bucket_ctx (document_ctx h)) r c)
document_ctx_lem h r c = elim (project_cases (bucket_ctx (document_ctx h)) r c) [
  | inl stop ↦ inl stop
  | inr (p, (found, e)) ↦
      let r1 = with_project r p in
      elim (bucket_cases (document_ctx h) r1 (ticked c) p refl) [
        | inl stop ↦ inl (Refused-again _ _ c e stop)
        | inr (b, (found', (inside, e'))) ↦
            elim (document_cases h (with_bucket r1 b) (ticked (ticked c)) b refl) [
              | inl stop ↦ inl (Refused-again _ _ c (e ∙ e') stop)
              | inr (d, (found'', (inside', e''))) ↦
                  inr
                    (p, (b, (d, (found, (found', (found'', (inside, (inside', e ∙ (e' ∙ e'')))))))))
            ]
      ]
]
