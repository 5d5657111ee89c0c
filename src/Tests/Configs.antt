-- ===== src/Tests/Configs.antt =====
-- A configuration file that is read.
use undying_terminal.Prelude.{List, [], ◌∷◌}
use undying_terminal.Prelude.Int.{pos}
use undying_terminal.Text.{codes}
use undying_terminal.Config.Lines.{
  port_key, logsize_key, bind_ip_key, verbose_key, silent_key, on_true, off, Line, blank, comment,
  keyless, number, no_number, text, flag, unknown,
}

-- With `port= 2200abc`, `logsize=x`, `silent=0` and `shared_key_hex=00`.
abbrev lines : List Line
lines =
    comment (codes " port=1")
    ∷ blank
    ∷ number port_key (codes " ") (pos 2200) (codes "abc")
    ∷ no_number logsize_key (codes "x")
    ∷ keyless (codes "port")
    ∷ text bind_ip_key (codes "127.0.0.1")
    ∷ flag verbose_key on_true
    ∷ flag silent_key (off (codes "0"))
    ∷ unknown (codes "shared_key_hex") (codes "00")
    ∷ []
