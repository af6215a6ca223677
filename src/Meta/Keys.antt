-- ===== src/Meta/Keys.antt =====
-- The keys under which internal/meta/extractor.go stores what it finds.
use Prim.Native.String.{String}
use tinydm.Prelude.{◌≡◌, Bool, true, false, Option, none, some, [], ◌∷◌, All, if◌then◌else◌, ◌==◌}
use tinydm.Prelude.Int.{ℤ, pos, ltb_ℤ}
use tinydm.Prelude.Texts.{has_prefix}
use tinydm.Meta.Defs.{Props, put, when_found, put_some, put_nonempty, put_positive}

-- No key is in the namespace of the system.
unfoldable pub NoneReserved : Props → Type 0
NoneReserved = All (λ p. has_prefix p.0 "sys." ≡ false)

pub if-NoneReserved :
    (b : Bool) (p q : Props) → NoneReserved p → NoneReserved q → NoneReserved (if b then p else q)
if-NoneReserved true p q h k = h
if-NoneReserved false p q h k = k

pub when_found-NoneReserved :
    {A : Type 0} (o : Option A) (props : Props) (f : A → Props)
    → NoneReserved props
    → ((a : A) → NoneReserved (f a))
    → NoneReserved (when_found o props f)
unfolding when_found
when_found-NoneReserved none props f h k = h
when_found-NoneReserved (some a) props f h k = k a

pub no_props-NoneReserved : NoneReserved []
unfolding NoneReserved
no_props-NoneReserved = tt

module _ (key : String) (outside : has_prefix key "sys." ≡ false) where
  pub put-NoneReserved :
      (value : String) (props : Props) → NoneReserved props → NoneReserved (put key value props)
  unfolding put NoneReserved
  put-NoneReserved value [] h = (outside, tt)
  put-NoneReserved value ((k, v) ∷ props) (hk, h) =
      if-NoneReserved (k == key) ((key, value) ∷ props) ((k, v) ∷ put key value props) (outside, h)
        (hk, put-NoneReserved value props h)

  pub put_some-NoneReserved :
      {A : Type 0} (f : A → String) (o : Option A) (props : Props)
      → NoneReserved props
      → NoneReserved (put_some key f o props)
  unfolding put_some
  put_some-NoneReserved f none props h = h
  put_some-NoneReserved f (some a) props h = put-NoneReserved (f a) props h

  pub put_nonempty-NoneReserved :
      (value : String) (props : Props)
      → NoneReserved props
      → NoneReserved (put_nonempty key value props)
  unfolding put_nonempty
  put_nonempty-NoneReserved value props h =
      if-NoneReserved (value == "") props _ h (put-NoneReserved value props h)

  pub put_positive-NoneReserved :
      (n : ℤ) (props : Props) → NoneReserved props → NoneReserved (put_positive key n props)
  unfolding put_positive
  put_positive-NoneReserved n props h =
      if-NoneReserved (ltb_ℤ (pos 0) n) _ props (put-NoneReserved _ props h) h
