-- ===== src/Config/Laws.antt =====
-- Which configurations `Load` of internal/config/config.go accepts.
use tinydm.Prelude.{
  sym, ◌∙◌, not, ◌&&◌, false, ◌↔◌, ap, String, ◌≡◌, ◌≢◌, ◌⊎◌, inl, inr, arith, ◌==◌, eq_iff,
  Bool-cases,
}
use tinydm.Config.{load, read_config, check, Config, check_backend}
use tinydm.Sql.{Result, ok}

-- The settings of a storage backend are complete.
abbrev BackendComplete : Config → Type 0
BackendComplete c =
    (c.storage_backend ≡ "local")
    ⊎ (((c.storage_backend ≡ "s3")
          × ((c.s3_bucket ≢ "") × ((c.s3_key_id ≢ "") × (c.s3_secret ≢ ""))))
        ⊎ (((c.storage_backend ≡ "azure")
              × ((c.azure_account ≢ "") × ((c.azure_key ≢ "") × (c.azure_container ≢ ""))))
            ⊎ ((c.storage_backend ≡ "gcs") × (c.gcs_bucket ≢ ""))))

abbrev pub Complete : Config → Type 0
Complete c =
    (c.jwt_secret ≢ "")
    × (((c.perm_mode ≡ "explicit") ⊎ (c.perm_mode ≡ "open"))
        × (((c.db_driver ≡ "sqlite") ⊎ ((c.db_driver ≡ "postgres") × (c.db_dsn ≢ "")))
            × BackendComplete c))

module _ (c : Config) where
  check_backend_sound : (d : Config) → check_backend c ≡ ok d → BackendComplete c
  unfolding check_backend
  check_backend_sound d h = elim (Bool-cases (c.storage_backend == "local")) [
    | inl here ↦ inl ((eq_iff _ _).0 here)
    | inr not_local ↦ elim (Bool-cases (c.storage_backend == "s3")) [
      | inl here ↦ inr (
          inl (
            (eq_iff _ _).0 here,
            (
              λ e. absurd (ground (arith, eq_iff c.s3_bucket "")),
              (
                λ e. absurd (ground (arith, eq_iff c.s3_key_id "")),
                λ e. absurd (ground (arith, eq_iff c.s3_secret "")),
              ),
            ),
          ))
      | inr not_s3 ↦ elim (Bool-cases (c.storage_backend == "azure")) [
        | inl here ↦ inr (
            inr (
              inl (
                (eq_iff _ _).0 here,
                (
                  λ e. absurd (ground (arith, eq_iff c.azure_account "")),
                  (
                    λ e. absurd (ground (arith, eq_iff c.azure_key "")),
                    λ e. absurd (ground (arith, eq_iff c.azure_container "")),
                  ),
                ),
              )))
        | inr not_azure ↦ elim (Bool-cases (c.storage_backend == "gcs")) [
          | inl here ↦ inr (
              inr (inr ((eq_iff _ _).0 here, λ e. absurd (ground (arith, eq_iff c.gcs_bucket "")))))
          | inr not_gcs ↦ absurd (ground arith)
        ]
      ]
    ]
  ]

  check_backend_complete : BackendComplete c → check_backend c ≡ ok c
  unfolding check_backend
  check_backend_complete (inl here) = ground (
    arith,
    ap (λ s. s == "local") here,
    ap (λ s. s == "s3") here,
    ap (λ s. s == "azure") here,
    ap (λ s. s == "gcs") here,
  )
  check_backend_complete (inr (inl (here, (bucket, (key, secret))))) = ground (
    arith,
    ap (λ s. s == "local") here,
    ap (λ s. s == "s3") here,
    ap (λ s. s == "azure") here,
    ap (λ s. s == "gcs") here,
    eq_iff c.s3_bucket "",
    eq_iff c.s3_key_id "",
    eq_iff c.s3_secret "",
  )
  check_backend_complete (inr (inr (inl (here, (account, (key, container)))))) = ground (
    arith,
    ap (λ s. s == "local") here,
    ap (λ s. s == "s3") here,
    ap (λ s. s == "azure") here,
    ap (λ s. s == "gcs") here,
    eq_iff c.azure_account "",
    eq_iff c.azure_key "",
    eq_iff c.azure_container "",
  )
  check_backend_complete (inr (inr (inr (here, bucket)))) = ground (
    arith,
    ap (λ s. s == "local") here,
    ap (λ s. s == "s3") here,
    ap (λ s. s == "azure") here,
    ap (λ s. s == "gcs") here,
    eq_iff c.gcs_bucket "",
  )

  backend_ok : (d : Config) → check_backend c ≡ ok d → check_backend c ≡ ok c
  backend_ok d h = check_backend_complete (check_backend_sound d h)

  passed : (d : Config) → check c ≡ ok d → check_backend c ≡ ok d
  unfolding check
  passed d h = ground arith

  no_secret : (d : Config) → check c ≡ ok d → c.jwt_secret ≢ ""
  unfolding check
  no_secret d h e = absurd (ground (arith, eq_iff c.jwt_secret ""))

  mode_lem : (d : Config) → check c ≡ ok d → (c.perm_mode ≡ "explicit") ⊎ (c.perm_mode ≡ "open")
  unfolding check
  mode_lem d h = elim (Bool-cases (c.perm_mode == "explicit")) [
    | inl closed ↦ inl ((eq_iff _ _).0 closed)
    | inr other ↦ inr ((eq_iff _ _).0 (ground arith))
  ]

  driver_lem :
      (d : Config)
      → check c ≡ ok d
      → (c.db_driver ≡ "sqlite") ⊎ ((c.db_driver ≡ "postgres") × (c.db_dsn ≢ ""))
  unfolding check
  driver_lem d h = elim (Bool-cases (c.db_driver == "sqlite")) [
    | inl lite ↦ inl ((eq_iff _ _).0 lite)
    | inr other ↦
        inr ((eq_iff _ _).0 (ground arith), λ e. absurd (ground (arith, eq_iff c.db_dsn "")))
  ]

  same_config : (d : Config) (r : Result Config) → r ≡ ok c → r ≡ ok d → c ≡ d
  same_config d r h k = cc (sym h ∙ k)

  check_sound : (d : Config) → check c ≡ ok d → Complete c × (c ≡ d)
  check_sound d h =
      let sound = check_backend_sound d (passed d h) in
      (
        (no_secret d h, (mode_lem d h, (driver_lem d h, sound))),
        same_config d (check_backend c) (check_backend_complete sound) (passed d h),
      )

  driver_ok :
      (c.db_driver ≡ "sqlite") ⊎ ((c.db_driver ≡ "postgres") × (c.db_dsn ≢ ""))
      → ((not (c.db_driver == "sqlite") && not (c.db_driver == "postgres")) ≡ false)
        × ((c.db_driver == "postgres" && c.db_dsn == "") ≡ false)
  driver_ok (inl here) =
      let other = ap (λ s. s == "postgres") here in
      let lite = ap (λ s. s == "sqlite") here in (ground arith, ground arith)
  driver_ok (inr (here, dsn)) =
      let post = ap (λ s. s == "postgres") here in
      (ground arith, ground (arith, eq_iff c.db_dsn ""))

  mode_ok :
      (c.perm_mode ≡ "explicit") ⊎ (c.perm_mode ≡ "open")
      → (not (c.perm_mode == "explicit") && not (c.perm_mode == "open")) ≡ false
  mode_ok (inl here) = let e = ap (λ s. s == "explicit") here in ground arith
  mode_ok (inr here) = let e = ap (λ s. s == "open") here in ground arith

  check-Complete : Complete c → check c ≡ ok c
  unfolding check
  check-Complete (secret, (mode, (driver, backend))) =
      let (one, two) = driver_ok driver in
      ground (arith, eq_iff c.jwt_secret "", mode_ok mode, check_backend_complete backend)

-- `Load` returns a configuration exactly if the environment gives a complete one: a secret, a known
-- permission mode and database driver, a connection string for PostgreSQL, and the settings of
-- the storage backend that is chosen; and that is the one it returns.
pub load_iff :
    (getenv : String → String) (hostname : Result String) (d : Config)
    → (load getenv hostname ≡ ok d)
      ↔ (Complete (read_config getenv hostname) × (read_config getenv hostname ≡ d))
unfolding load
load_iff getenv hostname d =
    let c = read_config getenv hostname in (check_sound c d, λ h. check-Complete c h.0 ∙ ap ok h.1)
