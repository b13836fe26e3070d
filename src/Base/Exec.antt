-- ===== src/Base/Exec.antt =====
-- Methods that write to the database and may throw. What was written before a throw stays written,
-- unless it stands in a transaction, which writes all or nothing.
use Prim.Native.String.{String}
use native.Mathlib.Omega.{arith}
use mathlib.Core.Logic.{◌⊎◌, inl, inr}
use mathlib.Core.Path.{◌≡◌, refl}

-- What a method throws: the exceptions of NestJS, Prisma's `P2025`, and any other error.
pub data Failure : Type 0 where
  not_found : String → Failure
  bad_request : String → Failure
  forbidden : String → Failure
  failed : String → Failure

abbrev pub message : Failure → String
message (not_found m) = m
message (bad_request m) = m
message (forbidden m) = m
message (failed m) = m

pub data Result {ℓ} (A : Type ℓ) : Type ℓ where
  ok : A → Result A
  err : Failure → Result A

abbrev pub Exec : Type 0 → Type 0 → Type 0
Exec S A = S → Result A × S

module _ {S A : Type 0} where
  abbrev pub pure : A → Exec S A
  pure a s = (ok a, s)

  abbrev pub throw : Failure → Exec S A
  throw e s = (err e, s)

  -- `prisma.$transaction(async (tx) => …)`
  abbrev pub settle : Result A × S → S → Result A × S
  settle (ok a, after) before = (ok a, after)
  settle (err e, after) before = (err e, before)

  abbrev pub transaction : Exec S A → Exec S A
  transaction m s = settle (m s) s

module _ {S A B : Type 0} where
  abbrev pub resume : Result A × S → (A → Exec S B) → Result B × S
  resume (ok a, s) f = f a s
  resume (err e, s) f = (err e, s)

  infixl 5 ◌>>=◌ ◌>>◌
  abbrev pub ◌>>=◌ : Exec S A → (A → Exec S B) → Exec S B
  ◌>>=◌ m f s = resume (m s) f

  abbrev pub ◌>>◌ : Exec S A → Exec S B → Exec S B
  ◌>>◌ m n s = resume (m s) (λ _. n)

pub Result-cases {ℓ} :
    {A : Type ℓ} (r : Result A) → ((e : Failure) × (r ≡ err e)) ⊎ ((a : A) × (r ≡ ok a))
Result-cases (ok a) = inr (a, refl)
Result-cases (err e) = inl (e, refl)

module _ {S A B : Type 0} where
  -- A sequence that returns has returned from its first part.
  pub >>=-eq-ok :
      (m : Exec S A) (f : A → Exec S B) (s r : S) (b : B)
      → (m >>= f) s ≡ (ok b, r)
      → (a : A) × (mid : S) × (m s ≡ (ok a, mid)) × (f a mid ≡ (ok b, r))
  >>=-eq-ok m f s r b h = go (m s) refl h
    where
      go :
          (o : Result A × S)
          → m s ≡ o
          → resume o f ≡ (ok b, r)
          → (a : A) × (mid : S) × (m s ≡ (ok a, mid)) × (f a mid ≡ (ok b, r))
      go (ok a, mid) e k = (a, mid, e, k)
      go (err x, mid) e k = absurd (ground arith)

module _ {S A : Type 0} where
  -- A transaction that throws has written nothing; one that returns has made all of its writes.
  pub transaction_outcome :
      (m : Exec S A) (s : S)
      → ((e : Failure) × (transaction m s ≡ (err e, s)))
        ⊎ ((a : A) × (r : S) × (m s ≡ (ok a, r)) × (transaction m s ≡ (ok a, r)))
  transaction_outcome m s = go (m s) refl
    where
      go :
          (o : Result A × S)
          → m s ≡ o
          → ((e : Failure) × (settle (m s) s ≡ (err e, s)))
            ⊎ ((a : A) × (r : S) × (m s ≡ (ok a, r)) × (settle (m s) s ≡ (ok a, r)))
      go (ok a, r) e = inr (a, r, e, rw e)
      go (err x, r) e = inl (x, rw e)
