-- ===== src/Terminal/Reply.antt =====
-- The first line of a reply that comes in chunks.
use undying_terminal.Prelude.{
  ℕ, ◌≡◌, refl, sym, ap, ◌∙◌, none, some, List, [], ◌∷◌, ◌++◌, ◌==◌, append_assoc, append-nil,
  Bytes, Bool-cases, inl, inr, ==_iff,
}
use undying_terminal.Text.Splitting.{Lacks}
use undying_terminal.SshConfig.Breaking.{break_first-Lacks, break_first-none}
use undying_terminal.SshConfig.{break_first}
use undying_terminal.Client.Launch.{without_return, read_line_from}

abbrev pub concat : List Bytes → Bytes
concat [] = []
concat (s ∷ ss) = s ++ concat ss

-- Whether the byte is there, and where.
pub data Break (c : ℕ) (s : Bytes) : Type 0 where
  absent : Lacks c s → Break c s
  at : (before behind : Bytes) → s ≡ before ++ c ∷ behind → Lacks c before → Break c s

split_first : (c : ℕ) (s : Bytes) → Break c s
split_first c [] = absent tt
split_first c (a ∷ s) = elim (Bool-cases (a == c)) [
  | inl y ↦ at [] s (ap (λ x. x ∷ s) ((==_iff a c).0 y)) tt
  | inr n ↦ elim (split_first c s) [
    | absent h ↦ absent (n, h)
    | at before behind e h ↦ at (a ∷ before) behind (ap (◌∷◌ a) e) (n, h)
  ]
]

first_of : {a b : Bytes × Bytes} → some a ≡ some b → a.0 ≡ b.0
first_of {a} {b} p = ap (λ x. x.0) (inner p)
  where
    inner : some a ≡ some b → a ≡ b
    inner q = cc

same_line : (s t x y : Bytes) → Lacks 10 s → Lacks 10 t → s ++ 10 ∷ x ≡ t ++ 10 ∷ y → s ≡ t
same_line s t x y h k e =
    first_of (sym (break_first-Lacks 10 s x h) ∙ ap (break_first 10) e ∙ break_first-Lacks 10 t y k)

no_line : (s t y : Bytes) → Lacks 10 s → Lacks 10 t → ¬ (s ≡ t ++ 10 ∷ y)
no_line s t y h k e =
    none≢some (sym (break_first-none 10 s h) ∙ ap (break_first 10) e ∙ break_first-Lacks 10 t y k)
  where
    none≢some : {a : Bytes × Bytes} → ¬ (none ≡ some a)
    none≢some q = cc

-- However the reply is cut into chunks, its first line is read.
pub read_line_from_lem :
    (chunks : List Bytes) (buffer line rest : Bytes)
    → buffer ++ concat chunks ≡ line ++ 10 ∷ rest
    → Lacks 10 line
    → Lacks 10 buffer
    → read_line_from buffer chunks ≡ some (without_return line)
unfolding read_line_from
read_line_from_lem [] buffer line rest e h k =
    absurd (no_line buffer line rest k h (sym (append-nil buffer) ∙ e))
read_line_from_lem (chunk ∷ chunks) buffer line rest e h k =
    elim (split_first 10 (buffer ++ chunk)) [
      | absent l ↦ rw (break_first-none 10 (buffer ++ chunk) l) (
          read_line_from_lem chunks (buffer ++ chunk) line rest
            (append_assoc buffer chunk (concat chunks) ∙ e) h l)
      | at before behind e' l ↦
          let whole : before ++ 10 ∷ (behind ++ concat chunks) ≡ line ++ 10 ∷ rest =
            sym (append_assoc before (10 ∷ behind) (concat chunks))
            ∙ ap (λ x. x ++ concat chunks) (sym e')
            ∙ append_assoc buffer chunk (concat chunks)
            ∙ e in
          rw (e', break_first-Lacks 10 before behind l)
            (ap (λ x. some (without_return x)) (same_line before line _ rest l h whole))
    ]

pub without_return-cr : (s : Bytes) → without_return (s ++ 13 ∷ []) ≡ s
without_return-cr [] = refl
without_return-cr (a ∷ []) = refl
without_return-cr (a ∷ b ∷ s) = ap (◌∷◌ a) (without_return-cr (b ∷ s))

pub without_return-Lacks : (s : Bytes) → Lacks 13 s → without_return s ≡ s
without_return-Lacks [] h = refl
without_return-Lacks (a ∷ []) h = rw h.0
without_return-Lacks (a ∷ b ∷ s) h = ap (◌∷◌ a) (without_return-Lacks (b ∷ s) h.1)
