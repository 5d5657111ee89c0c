-- ===== src/Session/Screen.antt =====
-- The threads of a session in src/utterminal/main.cpp, between the pipe and the pseudo-console.
use undying_terminal.Prelude.{
  ℕ, ◌&&◌, Option, none, some, List, [], ◌∷◌, ◌++◌, ◌%◌, ltb, ◌==◌, if◌then◌else◌, Bytes,
}
use undying_terminal.Prelude.Int.{ℤ, pos, sub_ℕ}
use undying_terminal.Packet.{Packet}
use undying_terminal.Text.{is_empty}
use undying_terminal.Session.{terminal_buffer, terminal_info, terminal_init, TerminalCodec, coded}

-- `WriteFile` on the input of the pseudo-console, or `Resize`.
pub data ScreenEffect : Type 0 where
  writes_input : Bytes → ScreenEffect
  resizes_to : ℤ → ℤ → ScreenEffect

-- `static_cast<short>` of what is above 0
abbrev pub to_short : ℕ → ℤ
to_short n = let m = n % 65536 in if ltb m 32768 then pos m else sub_ℕ m 65536

abbrev pub resized : ℤ → ℤ → List ScreenEffect
resized (pos w) (pos h) =
    if ltb 0 w && ltb 0 h then resizes_to (to_short w) (to_short h) ∷ [] else []
resized _ _ = []

abbrev pub write_buffer : Option Bytes → List ScreenEffect
write_buffer none = []
write_buffer (some b) = writes_input b ∷ []

abbrev pub resize_to : Option (ℤ × ℤ) → List ScreenEffect
resize_to none = []
resize_to (some (w, h)) = resized w h

-- A round of the input thread.
unfoldable pub handle_input : TerminalCodec → Packet → List ScreenEffect
handle_input c p =
    if p.header == terminal_buffer
    then write_buffer (c.get_buffer p.payload)
    else if p.header == terminal_info
    then resize_to (c.get_info p.payload)
    else []

-- The input thread, on the packets that it reads while the session runs.
unfoldable pub input_thread : TerminalCodec → List Packet → List ScreenEffect
input_thread c [] = []
input_thread c (p ∷ ps) = handle_input c p ++ input_thread c ps

-- What follows the registration, with the packets that are read from the pipe: the first is to be
-- `TERMINAL_INIT`. This is without `--jump` and `--tunnel-only`.
unfoldable pub screen : TerminalCodec → List Packet → List ScreenEffect
screen c [] = []
screen c (p ∷ ps) = if p.header == terminal_init then input_thread c ps else []

-- The output thread, on what `ReadFile` gives while the session runs: the packets for the pipe.
unfoldable pub output_thread : TerminalCodec → List Bytes → List Packet
output_thread c [] = []
output_thread c (chunk ∷ chunks) =
    let more = output_thread c chunks in
    if is_empty chunk then [] else coded terminal_buffer (c.put_buffer chunk) ++ more
