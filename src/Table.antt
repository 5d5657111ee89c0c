-- ===== src/Table.antt =====
-- The `std::unordered_map`s of the program: a list of entries, over any key type with a test of
-- equality. The order of the entries is the order in which the program happens to iterate.
pub mod Laws
use undying_terminal.Prelude.Int.{ℤ, pos, negsuc}
use undying_terminal.Prelude.{
  ℕ, ◌≡◌, ◌↔◌, Bool, true, false, ◌&&◌, Option, none, some, List, [], ◌∷◌, if◌then◌else◌, Bytes,
  ◌==◌, ==_iff, refl, arith,
}

-- What a map asks of its keys.
pub record Key {ℓ} (K : Type ℓ) : Type ℓ where
  pub same : K → K → Bool
  pub same_iff : (a b : K) → (same a b ≡ true) ↔ (a ≡ b)

abbrev pub Table {ℓ κ} : Type ℓ → Type κ → Type (ℓ ⊔ κ)
Table K V = List (K × V)

module _ {ℓ κ} {K : Type ℓ} {V : Type κ} ⦃key : Key K⦄ where
  -- `find`
  unfoldable pub find : K → Table K V → Option V
  find k [] = none
  find k ((a, v) ∷ t) = let later = find k t in if key.same a k then some v else later

  -- `erase` of a key
  unfoldable pub erase : K → Table K V → Table K V
  erase k [] = []
  erase k ((a, v) ∷ t) = let later = erase k t in if key.same a k then later else (a, v) ∷ later

  -- `t[k] = v`
  unfoldable pub put : K → V → Table K V → Table K V
  put k v t = (k, v) ∷ erase k t

  abbrev pub modify_found : K → (V → V) → Table K V → Option V → Table K V
  modify_found k f t none = t
  modify_found k f t (some v) = put k (f v) t

  -- A change through the iterator that `find` gives, if it finds one.
  unfoldable pub modify : K → (V → V) → Table K V → Table K V
  modify k f t = modify_found k f t (find k t)

  -- A loop that erases the entries whose values fail a test.
  unfoldable pub retain : (V → Bool) → Table K V → Table K V
  retain test [] = []
  retain test ((a, v) ∷ t) = let later = retain test t in if test v then (a, v) ∷ later else later

abbrev pub same_bytes : Bytes → Bytes → Bool
same_bytes [] [] = true
same_bytes (a ∷ s) (b ∷ t) = (a == b) && same_bytes s t
same_bytes _ _ = false

pub same_bytes_refl : (s : Bytes) → same_bytes s s ≡ true
same_bytes_refl [] = refl
same_bytes_refl (a ∷ s) = ground (arith, same_bytes_refl s)

pub same_bytes_sound : (s t : Bytes) → same_bytes s t ≡ true → s ≡ t
same_bytes_sound [] [] h = refl
same_bytes_sound [] (b ∷ t) h = ground arith
same_bytes_sound (a ∷ s) [] h = ground arith
same_bytes_sound (a ∷ s) (b ∷ t) h = ground (arith, same_bytes_sound s t)

-- Strings, the ids of clients.
instance abbrev pub bytes_key : Key Bytes
bytes_key = record {
  same = same_bytes;
  same_iff = λ s t. (same_bytes_sound s t, λ e. rw e (same_bytes_refl t));
}

abbrev pub same_int : ℤ → ℤ → Bool
same_int (pos m) (pos n) = m == n
same_int (negsuc m) (negsuc n) = m == n
same_int _ _ = false

pub same_int_iff : (m n : ℤ) → (same_int m n ≡ true) ↔ (m ≡ n)
same_int_iff (pos m) (pos n) = ground arith
same_int_iff (pos m) (negsuc n) = ground arith
same_int_iff (negsuc m) (pos n) = ground arith
same_int_iff (negsuc m) (negsuc n) = ground arith

-- Numbers of type `int`, the ids of tunnels.
instance abbrev pub int_key : Key ℤ
int_key = record { same = same_int; same_iff = same_int_iff }

-- Addresses of objects.
instance abbrev pub nat_key : Key ℕ
nat_key = record { same = ◌==◌; same_iff = ==_iff }
