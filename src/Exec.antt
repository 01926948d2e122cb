-- ===== src/Exec.antt =====
-- Python methods that mutate an object and may raise: what was written before a raise stays written,
-- so the state comes back beside the exception.
use knot_link_sdk.Base.{Bool, true, false}

-- The exceptions that the SDK raises or lets through. `socket.error` is `OSError`, of which
-- `TimeoutError` is a subclass; `other_error` stands for what a user's callback may raise besides.
pub data Exc : Type 0 where
  os_error timeout_error value_error unicode_encode_error unicode_decode_error other_error : Exc

-- `except socket.error`
abbrev pub is_socket_error : Exc → Bool
is_socket_error os_error = true
is_socket_error timeout_error = true
is_socket_error _ = false

pub data Result {ℓ} (A : Type ℓ) : Type ℓ where
  ok : A → Result A
  raised : Exc → Result A

abbrev pub Exec : Type 0 → Type 0 → Type 0
Exec S A = S → Result A × S

module _ {S A : Type 0} where
  abbrev pub pure : A → Exec S A
  pure a s = (ok a, s)

  abbrev pub raise : Exc → Exec S A
  raise e s = (raised e, s)

module _ {S A B : Type 0} where
  abbrev pub continue : Result A → (A → Exec S B) → Exec S B
  continue (ok a) f s = f a s
  continue (raised e) f s = (raised e, s)

  infixl 5 ◌>>=◌ ◌>>◌
  abbrev pub ◌>>=◌ : Exec S A → (A → Exec S B) → Exec S B
  ◌>>=◌ m f s = let (r, s') = m s in continue r f s'

  abbrev pub ◌>>◌ : Exec S A → Exec S B → Exec S B
  m >> n = m >>= λ _. n

-- `try: m except … as e: handler(e)`
abbrev pub handle : {S A : Type 0} → Result A → (Exc → Exec S A) → Exec S A
handle (ok a) h s = (ok a, s)
handle (raised e) h s = h e s

abbrev pub catch : {S A : Type 0} → Exec S A → (Exc → Exec S A) → Exec S A
catch m h s = let (r, s') = m s in handle r h s'
