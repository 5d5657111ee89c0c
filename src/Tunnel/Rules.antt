-- ===== src/Tunnel/Rules.antt =====
-- Texts of several rules.
use undying_terminal.Prelude.{
  ℕ, suc, ◌≡◌, refl, sym, ap, ◌∙◌, true, false, List, [], ◌∷◌, ◌++◌, map, ltb, ◌==◌, length, Bytes,
  append_assoc, append-nil, arith,
}
use undying_terminal.Result.{ok}
use undying_terminal.Text.{is_empty, is_digit, split}
use undying_terminal.Text.Splitting.{
  Lacks, Lacks-append, is_empty-middle, split-append, split_whole, split_pair,
}
use undying_terminal.Text.Numbers.{IsNumber, Lacks-digits}
use undying_terminal.PortForward.Messages.{SourceRequest}
use undying_terminal.Tunnel.{
  is_numeric_or_range, process_pair, process_ut_style_arg, process_parts, parse_ranges_to_requests,
}
use undying_terminal.Tunnel.Rule.{
  Rule, port, range, named, text, IsName, IsRule, AllRules, expand, expand_all, join, process_port,
  process_range, process_named,
}

-- The two sides of a rule, and that neither they nor the rule hold a separator.
source_of : Rule → Bytes
source_of (port s d) = s
source_of (range s0 s1 d0 d1) = s0 ++ b'-' ∷ s1
source_of (named s d) = s

dest_of : Rule → Bytes
dest_of (port s d) = d
dest_of (range s0 s1 d0 d1) = d0 ++ b'-' ∷ d1
dest_of (named s d) = d

text_sides : (r : Rule) → text r ≡ source_of r ++ b':' ∷ dest_of r
unfolding text source_of dest_of
text_sides (port s d) = refl
text_sides (range s0 s1 d0 d1) = refl
text_sides (named s d) = refl

-- A byte that is no digit and no dash.
range-Lacks :
    (c : ℕ) (s t : Bytes)
    → is_digit c ≡ false
    → (b'-' == c) ≡ false
    → IsNumber s
    → IsNumber t
    → Lacks c (s ++ b'-' ∷ t)
range-Lacks c s t other no_dash h k =
    Lacks-append c s (b'-' ∷ t) (Lacks-digits c s other h.digits)
      (no_dash, Lacks-digits c t other k.digits)

record Sides (r : Rule) (c : ℕ) : Type 0 where
  source_lacks : Lacks c (source_of r)
  dest_lacks : Lacks c (dest_of r)

Sides-lack :
    (r : Rule) (c : ℕ)
    → is_digit c ≡ false
    → (b'-' == c) ≡ false
    → ((s : Bytes) → IsName s → Lacks c s)
    → IsRule r
    → Sides r c
unfolding source_of dest_of
Sides-lack (port s d) c other no_dash names h = record {
  source_lacks = Lacks-digits c s other h.0.digits;
  dest_lacks = Lacks-digits c d other h.1.digits;
}
Sides-lack (range s0 s1 d0 d1) c other no_dash names h = record {
  source_lacks = range-Lacks c s0 s1 other no_dash h.number_s0 h.number_s1;
  dest_lacks = range-Lacks c d0 d1 other no_dash h.number_d0 h.number_d1;
}
Sides-lack (named s d) c other no_dash names h = record {
  source_lacks = names s h.0;
  dest_lacks = names d h.1;
}

name_there : (s : Bytes) → is_numeric_or_range s ≡ false → is_empty s ≡ false
unfolding is_numeric_or_range
name_there [] h = cc
name_there (c ∷ s) h = refl

dest_there : (r : Rule) → IsRule r → is_empty (dest_of r) ≡ false
unfolding dest_of
dest_there (port s d) h = h.1.some_digit
dest_there (range s0 s1 d0 d1) h = is_empty-middle d0 d1 b'-'
dest_there (named s d) h = name_there d h.1.no_number

text-Lacks : (r : Rule) → IsRule r → Lacks b',' (text r)
unfolding is_digit
text-Lacks r h =
    let sides = Sides-lack r b',' refl refl (λ s n. n.no_comma) h in
    rw (text_sides r) (
      Lacks-append b',' (source_of r) (b':' ∷ dest_of r) sides.source_lacks
        (refl, sides.dest_lacks))

split_text : (r : Rule) → IsRule r → split (text r) b':' ≡ source_of r ∷ dest_of r ∷ []
unfolding is_digit
split_text r h =
    let sides = Sides-lack r b':' refl refl (λ s n. n.no_colon) h in
    rw (text_sides r) (
      split_pair b':' (source_of r) (dest_of r) sides.source_lacks sides.dest_lacks
        (dest_there r h))

process_sides :
    (out : List SourceRequest) (r : Rule)
    → IsRule r
    → process_pair out (source_of r) (dest_of r) ≡ ok (out ++ expand r)
unfolding source_of dest_of
process_sides out (port s d) h = process_port out s d h.0 h.1
process_sides out (range s0 s1 d0 d1) h = process_range out s0 s1 d0 d1 h
process_sides out (named s d) h = process_named out s d h.0 h.1

process_text :
    (out : List SourceRequest) (r : Rule)
    → IsRule r
    → process_ut_style_arg out (split (text r) b':') ≡ ok (out ++ expand r)
unfolding process_ut_style_arg
process_text out r h = rw (split_text r h) (process_sides out r h)

split_one : (r : Rule) → IsRule r → split (text r) b',' ≡ text r ∷ []
split_one r h =
    let there : is_empty (text r) ≡ false =
      rw (text_sides r) (is_empty-middle (source_of r) (dest_of r) b':') in
    split_whole b',' (text r) (text-Lacks r h) there

split_join :
    (r : Rule) (rs : List Rule) → AllRules (r ∷ rs) → split (join r rs) b',' ≡ text r ∷ map text rs
unfolding join
split_join r [] h = split_one r h.0
split_join r (r' ∷ rs) h =
    split-append b',' (text r) (join r' rs) (text-Lacks r h.0)
    ∙ ap (◌∷◌ (text r)) (split_join r' rs h.1)

process_all :
    (out : List SourceRequest) (rs : List Rule)
    → AllRules rs
    → process_parts out (map text rs) ≡ ok (out ++ expand_all rs)
unfolding process_parts expand_all
process_all out [] h = rw (append-nil out)
process_all out (r ∷ rs) h =
    rw (process_text out r h.0)
      (process_all (out ++ expand r) rs h.1 ∙ rw (append_assoc out (expand r) (expand_all rs)))

join_one : (r : Rule) → join r [] ≡ text r
unfolding join
join_one r = refl

-- The text of one or more rules, with commas between them, is parsed to the requests of each rule in
-- turn: for each port of a range, one request, and the i-th port of the source goes with the i-th of the
-- destination. The rules are made of numbers that fit an `int`, of upward ranges of equal length,
-- and of names that are no numbers and hold no separator.
pub parse_rules :
    (r : Rule) (rs : List Rule)
    → AllRules (r ∷ rs)
    → parse_ranges_to_requests (join r rs) ≡ ok (expand_all (r ∷ rs))
unfolding parse_ranges_to_requests process_ut_style_arg expand_all
parse_rules r [] h =
    simp (join_one r, split_one r h.0, split_text r h.0)
      (process_sides [] r h.0 ∙ ap ok (sym (append-nil (expand r))))
parse_rules r (r' ∷ rs) h =
    let many : ltb 1 (suc (suc (length (map text rs)))) ≡ true = ground arith in
    simp (split_join r (r' ∷ rs) h, many) (process_all [] (r ∷ r' ∷ rs) h)
