-- ===== src/Table/Laws.antt =====
-- What `find` gives behind each operation of a map, and that a map keeps one entry for a key.
use undying_terminal.Prelude.{
  ◌≡◌, refl, Bool, false, inl, inr, Bool-cases, Option, none, some, [], ◌∷◌, if◌then◌else◌, arith,
}
use undying_terminal.Table.{Key, Table, find, erase, put, modify, modify_found, retain}

abbrev pub changed {ℓ} : {V : Type ℓ} → (V → V) → Option V → Option V
changed f none = none
changed f (some v) = some (f v)

abbrev pub passing {ℓ} : {V : Type ℓ} → (V → Bool) → Option V → Option V
passing test none = none
passing test (some v) = if test v then some v else none

module _ {ℓ κ} {K : Type ℓ} {V : Type κ} ⦃key : Key K⦄ where
  -- No key has two entries.
  abbrev pub IsMap : Table K V → Type κ
  IsMap [] = Unit
  IsMap ((a, v) ∷ t) = (find a t ≡ none) × IsMap t

  pub find-erase :
      (j k : K) (t : Table K V) → find j (erase k t) ≡ (if key.same k j then none else find j t)
  unfolding find erase
  find-erase j k [] = elim (Bool-cases (key.same k j)) [ inl y ↦ rw y | inr n ↦ rw n ]
  find-erase j k ((a, v) ∷ t) = elim (Bool-cases (key.same a k)) [
    | inl y ↦ rw (y, find-erase j k t, (key.same_iff a k).0 y) (ground arith)
    | inr n ↦ elim (Bool-cases (key.same k j)) [
      | inl y ↦
          let apart : key.same a j ≡ false = rw (← ((key.same_iff k j).0 y)) n in
          rw (n, apart, find-erase j k t, y)
      | inr m ↦ rw (n, find-erase j k t, m)
    ]
  ]

  pub find-put :
      (j k : K) (v : V) (t : Table K V)
      → find j (put k v t) ≡ (if key.same k j then some v else find j t)
  unfolding find put
  find-put j k v t = elim (Bool-cases (key.same k j)) [
    | inl y ↦ rw y
    | inr n ↦ rw (n, find-erase j k t, n)
  ]

  find-modify_found :
      (j k : K) (f : V → V) (t : Table K V) (found : Option V)
      → find k t ≡ found
      → find j (modify_found k f t found)
        ≡ (if key.same k j then changed f (find j t) else find j t)
  find-modify_found j k f t none e = elim (Bool-cases (key.same k j)) [
    | inl y ↦ let e' : find j t ≡ none = rw (← ((key.same_iff k j).0 y)) e in rw (y, e')
    | inr n ↦ rw n
  ]
  find-modify_found j k f t (some v) e = elim (Bool-cases (key.same k j)) [
    | inl y ↦
        let e' : find j t ≡ some v = rw (← ((key.same_iff k j).0 y)) e in
        rw (find-put j k (f v) t, y, e')
    | inr n ↦ rw (find-put j k (f v) t, n)
  ]

  pub find-modify :
      (j k : K) (f : V → V) (t : Table K V)
      → find j (modify k f t) ≡ (if key.same k j then changed f (find j t) else find j t)
  unfolding modify
  find-modify j k f t = find-modify_found j k f t (find k t) refl

  find-erase-nothing : (a k : K) (t : Table K V) → find a t ≡ none → find a (erase k t) ≡ none
  find-erase-nothing a k t h = elim (Bool-cases (key.same k a)) [
    | inl y ↦ rw (find-erase a k t, y)
    | inr n ↦ rw (find-erase a k t, n, h)
  ]

  pub erase-IsMap : (k : K) (t : Table K V) → IsMap t → IsMap (erase k t)
  unfolding erase
  erase-IsMap k [] h = tt
  erase-IsMap k ((a, v) ∷ t) h = elim (Bool-cases (key.same a k)) [
    | inl y ↦ rw y (erase-IsMap k t h.1)
    | inr n ↦ rw n (find-erase-nothing a k t h.0, erase-IsMap k t h.1)
  ]

  pub put-IsMap : (k : K) (v : V) (t : Table K V) → IsMap t → IsMap (put k v t)
  unfolding put
  put-IsMap k v t h = (rw (find-erase k k t, (key.same_iff k k).1 refl), erase-IsMap k t h)

  modify_found-IsMap :
      (k : K) (f : V → V) (t : Table K V) (found : Option V)
      → IsMap t
      → IsMap (modify_found k f t found)
  modify_found-IsMap k f t none h = h
  modify_found-IsMap k f t (some v) h = put-IsMap k (f v) t h

  pub modify-IsMap : (k : K) (f : V → V) (t : Table K V) → IsMap t → IsMap (modify k f t)
  unfolding modify
  modify-IsMap k f t h = modify_found-IsMap k f t (find k t) h

  pub find-retain :
      (j : K) (test : V → Bool) (t : Table K V)
      → IsMap t
      → find j (retain test t) ≡ passing test (find j t)
  unfolding find retain
  find-retain j test [] h = refl
  find-retain j test ((a, v) ∷ t) h = elim (Bool-cases (key.same a j)) [
    | inl y ↦
        let gone : find j t ≡ none = rw (← ((key.same_iff a j).0 y)) (h.0) in
        elim (Bool-cases (test v)) [
          | inl keep ↦ rw (keep, y, keep)
          | inr drop ↦ rw (drop, y, find-retain j test t h.1, gone, drop)
        ]
    | inr n ↦ elim (Bool-cases (test v)) [
      | inl keep ↦ rw (keep, n, find-retain j test t h.1)
      | inr drop ↦ rw (drop, n, find-retain j test t h.1)
    ]
  ]

  pub retain-IsMap : (test : V → Bool) (t : Table K V) → IsMap t → IsMap (retain test t)
  unfolding retain
  retain-IsMap test [] h = tt
  retain-IsMap test ((a, v) ∷ t) h = elim (Bool-cases (test v)) [
    | inl keep ↦ rw keep (rw (find-retain a test t h.1, h.0), retain-IsMap test t h.1)
    | inr drop ↦ rw drop (retain-IsMap test t h.1)
  ]

  pub find-put_self : (k : K) (v : V) (t : Table K V) → find k (put k v t) ≡ some v
  find-put_self k v t = rw (find-put k k v t, (key.same_iff k k).1 refl)

  pub find-erase_self : (k : K) (t : Table K V) → find k (erase k t) ≡ none
  find-erase_self k t = rw (find-erase k k t, (key.same_iff k k).1 refl)
