-- ===== src/SshConfig/Sections.antt =====
-- The sections of a configuration file.
use undying_terminal.Prelude.{
  ◌≡◌, refl, sym, ap, ◌∙◌, Bool, true, false, some, List, [], ◌∷◌, ◌++◌, Bytes,
}
use mathlib.Core.Path.{fun_ext}
use undying_terminal.Result.{Result, ok, throw, ◌>>=◌}
use undying_terminal.Text.{lower, words, codes}
use undying_terminal.Table.{same_bytes}
use undying_terminal.SshConfig.{
  Environment, SshConfigOptions, no_options, Loading, cleaned, host_matches, load_words, load_line,
  load_lines, load_for_host,
}

-- A line that begins a section.
abbrev pub is_host_words : List Bytes → Bool
is_host_words [] = false
is_host_words (key ∷ more) = same_bytes (lower key) (codes "host")

unfoldable pub is_host_line : Bytes → Bool
is_host_line line = is_host_words (words (cleaned line))

-- Its patterns match the host.
abbrev pub words_match : Bytes → List Bytes → Bool
words_match host [] = false
words_match host (key ∷ more) = host_matches more host

unfoldable pub section_matches : Bytes → Bytes → Bool
section_matches host line = words_match host (words (cleaned line))

abbrev pub NoHostLine : List Bytes → Type 0
NoHostLine [] = Unit
NoHostLine (line ∷ lines) = (is_host_line line ≡ false) × NoHostLine lines

module _ (env : Environment) (host : Bytes) where
  -- At a line that begins a section, only the options are kept of what came before.
  host_line :
      (l : Loading) (line : Bytes)
      → is_host_line line ≡ true
      → load_line env host l line
        ≡ ok (record { seen_host = true; current_match = section_matches host line; out = l.out })
  unfolding is_host_line section_matches load_line
  host_line l line h = go (words (cleaned line)) h
    where
      go :
          (ws : List Bytes)
          → is_host_words ws ≡ true
          → load_words env host l (cleaned line) ws
            ≡ ok (record { seen_host = true; current_match = words_match host ws; out = l.out })
      go [] e = cc
      go (key ∷ more) e = rw e

  -- In a section that does not match, no other line changes anything.
  skipped_line :
      (out : SshConfigOptions) (line : Bytes)
      → is_host_line line ≡ false
      → load_line env host (record { seen_host = true; current_match = false; out = out }) line
        ≡ ok (record { seen_host = true; current_match = false; out = out })
  unfolding is_host_line load_line
  skipped_line out line h = go (words (cleaned line)) h
    where
      go :
          (ws : List Bytes)
          → is_host_words ws ≡ false
          → load_words env host
              (record { seen_host = true; current_match = false; out = out })
              (cleaned line)
              ws
            ≡ ok (record { seen_host = true; current_match = false; out = out })
      go [] e = refl
      go (key ∷ more) e = rw e

  skipped_lines :
      (out : SshConfigOptions) (lines rest : List Bytes)
      → NoHostLine lines
      → load_lines env host
          (record { seen_host = true; current_match = false; out = out })
          (lines ++ rest)
        ≡ load_lines env host (record { seen_host = true; current_match = false; out = out }) rest
  unfolding load_lines
  skipped_lines out [] rest h = refl
  skipped_lines out (line ∷ lines) rest h =
      rw (skipped_line out line h.0) (skipped_lines out lines rest h.1)

  load_lines-append :
      (l : Loading) (lines rest : List Bytes)
      → load_lines env host l (lines ++ rest)
        ≡ (load_lines env host l lines >>= λ l'. load_lines env host l' rest)
  unfolding load_lines
  load_lines-append l [] rest = refl
  load_lines-append l (line ∷ lines) rest =
      go (load_line env host l line) (λ l'. load_lines-append l' lines rest)
    where
      go :
          (r : Result Loading)
          → ((l' : Loading)
              → load_lines env host l' (lines ++ rest)
                ≡ (load_lines env host l' lines >>= λ l''. load_lines env host l'' rest))
          → (r >>= λ l'. load_lines env host l' (lines ++ rest))
            ≡ ((r >>= λ l'. load_lines env host l' lines) >>= λ l'. load_lines env host l' rest)
      go (throw e) ih = refl
      go (ok l') ih = ih l'

  -- A section in front of another one, or at the end.
  without_section :
      (l : Loading) (line : Bytes) (body : List Bytes) (next : Bytes) (rest : List Bytes)
      → is_host_line line ≡ true
      → section_matches host line ≡ false
      → NoHostLine body
      → is_host_line next ≡ true
      → load_lines env host l (line ∷ (body ++ next ∷ rest)) ≡ load_lines env host l (next ∷ rest)
  unfolding load_lines
  without_section l line body next rest begins other plain ends = rw (
    host_line l line begins,
    other,
    skipped_lines l.out body (next ∷ rest) plain,
    load_lines,
    host_line (record { seen_host = true; current_match = false; out = l.out }) next ends,
    host_line l next ends,
  )

  -- A section whose patterns do not match the host, between any lines and the next section, changes
  -- nothing of what `LoadForHost` gives or throws.
  pub foreign_section :
      (config_path : Bytes) (optional wants_error : Bool) (before : List Bytes) (line : Bytes)
      (body : List Bytes) (next : Bytes) (rest : List Bytes)
      → is_host_line line ≡ true
      → section_matches host line ≡ false
      → NoHostLine body
      → is_host_line next ≡ true
      → load_for_host env host config_path optional wants_error
          (some (before ++ line ∷ (body ++ next ∷ rest)))
        ≡ load_for_host env host config_path optional wants_error (some (before ++ next ∷ rest))
  unfolding load_for_host
  foreign_section config_path optional wants_error before line body next rest begins other plain
        ends =
      let start : Loading = record { seen_host = false; current_match = true; out = no_options } in
      let same : load_lines env host start (before ++ line ∷ (body ++ next ∷ rest))
          ≡ load_lines env host start (before ++ next ∷ rest) =
        load_lines-append start before (line ∷ (body ++ next ∷ rest))
        ∙ ap (λ (k : Loading → Result Loading). load_lines env host start before >>= k)
            (fun_ext (λ l. without_section l line body next rest begins other plain ends))
        ∙ sym (load_lines-append start before (next ∷ rest)) in
      rw same
