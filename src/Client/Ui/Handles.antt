-- ===== src/Client/Ui/Handles.antt =====
-- The handles of the sessions that the user interface starts.
use undying_terminal.Prelude.{
  ℕ, ◌+◌, ◌≡◌, refl, Bool, true, false, ◌||◌, Option, none, some, List, [], ◌∷◌, ◌++◌,
  if◌then◌else◌, Bytes, arith,
}
use undying_terminal.Text.{codes, is_empty}
use undying_terminal.Text.Stream.{Stream, stream_of, get_word}
use undying_terminal.Table.{Table, bytes_key, same_bytes, find, put}
use undying_terminal.Table.Laws.{IsMap, put-IsMap, erase-IsMap}
use undying_terminal.Client.Ui.{
  UiSessionProfile, Process, Ui, new_ui, Answers, Turn, stays, added, add_profile, set_tunnel,
  set_flag, created_as, started, start_session, ends, stopped, stop_session, removed,
  remove_profile, dispatch, ui_round, end_all, run_ui, command_line,
}
use undying_terminal.Client.Ui.Counting.{
  count-append, opened-append, closed-append, erase-held, put-nothing, count, opened, closed, held,
}

-- What a round does to the handles.
record Keeps (u : Ui) (t : Turn) : Type 0 where
  is_map : IsMap t.0.running
  balance :
      (h : ℕ)
      → count h (closed t.1) + count h (held t.0.running)
        ≡ count h (opened t.1) + count h (held u.running)

stays-Keeps : (u : Ui) → IsMap u.running → Keeps u (stays u)
stays-Keeps u m = record { is_map = m; balance = λ h. omega arith }

-- A round that changes profiles only.
profiles-Keeps :
    (u : Ui) (p : Table Bytes UiSessionProfile) (goes_on : Bool)
    → IsMap u.running
    → Keeps u (record u { profiles = p }, [], goes_on)
profiles-Keeps u p goes_on m = record { is_map = m; balance = λ h. omega arith }

if-Keeps :
    (u : Ui) (b : Bool) (t t' : Turn) → Keeps u t → Keeps u t' → Keeps u (if b then t else t')
if-Keeps u true t t' k k' = k
if-Keeps u false t t' k k' = k'

ends-handles :
    (h : ℕ) (active : Bool) (p : Process)
    → (count h (closed (ends active p)) ≡ count h (p.process ∷ [])) × (opened (ends active p) ≡ [])
ends-handles h true p = (refl, refl)
ends-handles h false p = (refl, refl)

added-Keeps : (u : Ui) (p : UiSessionProfile) → IsMap u.running → Keeps u (added u p)
added-Keeps u p m =
    if-Keeps u (is_empty p.name || is_empty p.host || is_empty p.client_id || is_empty p.passkey)
      (stays u) (record u { profiles = put p.name p u.profiles }, [], true) (stays-Keeps u m)
      (profiles-Keeps u (put p.name p u.profiles) true m)

add_profile-Keeps : (s : Stream) (u : Ui) → IsMap u.running → Keeps u (add_profile s u)
unfolding add_profile
add_profile-Keeps s u m = added-Keeps u _ m

started-Keeps :
    (exe_path name : Bytes) (answers : Answers) (u : Ui) (profile : Option UiSessionProfile)
    (o : Option Process)
    → IsMap u.running
    → find name u.running ≡ o
    → Keeps u (started exe_path name answers u profile o)
started-Keeps exe_path name answers u none o m e = stays-Keeps u m
started-Keeps exe_path name answers u (some p) (some q) m e = stays-Keeps u m
started-Keeps exe_path name answers u (some p) none m e = created-Keeps answers.created
  where
    created-Keeps : (o : Option Process) → Keeps u (created_as (command_line exe_path p) name u o)
    created-Keeps none = stays-Keeps u m
    created-Keeps (some q) = record {
      is_map = put-IsMap name q u.running m;
      balance = λ h. rw (put-nothing name q u.running e) (omega arith);
    }

stopped-Keeps :
    (name : Bytes) (answers : Answers) (u : Ui) (o : Option Process)
    → IsMap u.running
    → find name u.running ≡ o
    → Keeps u (stopped name answers u o)
stopped-Keeps name answers u none m e = stays-Keeps u m
stopped-Keeps name answers u (some p) m e = record {
  is_map = erase-IsMap name u.running m;
  balance = λ h.
      let (shut, none_opened) = ends-handles h answers.active p in
      let one = erase-held h name p u.running m e in rw none_opened (omega (arith, shut, one));
}

removed-Keeps :
    (name : Bytes) (u : Ui) (o : Option Process) → IsMap u.running → Keeps u (removed name u o)
removed-Keeps name u none m = profiles-Keeps u _ true m
removed-Keeps name u (some p) m = stays-Keeps u m

dispatch-Keeps :
    (exe_path cmd : Bytes) (s : Stream) (answers : Answers) (u : Ui)
    → IsMap u.running
    → Keeps u (dispatch exe_path cmd s answers u)
unfolding set_tunnel set_flag start_session stop_session remove_profile
dispatch-Keeps exe_path cmd s answers u m =
    if-Keeps u (same_bytes cmd (codes "add")) _ _ (add_profile-Keeps s u m) (
      if-Keeps u (same_bytes cmd (codes "set-tunnel")) _ _ (profiles-Keeps u _ true m) (
        if-Keeps u (same_bytes cmd (codes "set-flag")) _ _ (profiles-Keeps u _ true m) (
          if-Keeps u (same_bytes cmd (codes "start")) _ _
            (started-Keeps exe_path _ answers u _ _ m refl)
            (if-Keeps u (same_bytes cmd (codes "stop")) _ _ (stopped-Keeps _ answers u _ m refl) (
              if-Keeps u (same_bytes cmd (codes "remove")) _ _ (removed-Keeps _ u _ m)
                (record { is_map = m; balance = λ h. omega arith }))))))

ui_round-Keeps :
    (exe_path line : Bytes) (answers : Answers) (u : Ui)
    → IsMap u.running
    → Keeps u (ui_round exe_path line answers u)
unfolding ui_round
ui_round-Keeps exe_path line answers u m = if-Keeps u (is_empty line) _ _ (stays-Keeps u m) (
    dispatch-Keeps exe_path (get_word (stream_of line)).0 (get_word (stream_of line)).1 answers u m)

end_all-handles :
    (h : ℕ) (active : Process → Bool) (t : Table Bytes Process)
    → count h (closed (end_all active t)) ≡ count h (opened (end_all active t)) + count h (held t)
unfolding end_all
end_all-handles h active [] = omega arith
end_all-handles h active ((name, p) ∷ t) =
    let (shut, none_opened) = ends-handles h (active p) p in
    let rest = end_all-handles h active t in
    rw
      (
        closed-append (ends (active p) p) (end_all active t),
        opened-append (ends (active p) p) (end_all active t),
        none_opened,
      )
      (omega (
        arith,
        rest,
        shut,
        count-append h (closed (ends (active p) p)) (closed (end_all active t)),
      ))

run_ui-balance :
    (h : ℕ) (exe_path : Bytes) (active : Process → Bool) (lines : List (Bytes × Answers)) (u : Ui)
    → IsMap u.running
    → count h (closed (run_ui exe_path active lines u))
      ≡ count h (opened (run_ui exe_path active lines u)) + count h (held u.running)
unfolding run_ui
run_ui-balance h exe_path active [] u m = end_all-handles h active u.running
run_ui-balance h exe_path active ((line, answers) ∷ lines) u m =
    let k = ui_round-Keeps exe_path line answers u m in
    both h (ui_round exe_path line answers u) k
      (run_ui-balance h exe_path active lines (ui_round exe_path line answers u).0 k.is_map)
  where
    both :
        (h : ℕ) (t : Turn)
        → Keeps u t
        → count h (closed (run_ui exe_path active lines t.0))
          ≡ count h (opened (run_ui exe_path active lines t.0)) + count h (held t.0.running)
        → count h (
            closed (
              t.1
              ++ (if t.2 then run_ui exe_path active lines t.0 else end_all active t.0.running)))
          ≡ count h (
              opened (
                t.1
                ++ (if t.2 then run_ui exe_path active lines t.0 else end_all active t.0.running)))
            + count h (held u.running)
    both h (u', done, true) k rest =
        let later = run_ui exe_path active lines u' in
        rw (closed-append done later, opened-append done later)
          (omega (
            arith,
            k.balance h,
            rest,
            count-append h (closed done) (closed later),
            count-append h (opened done) (opened later),
          ))
    both h (u', done, false) k rest =
        let later = end_all active u'.running in
        rw (closed-append done later, opened-append done later)
          (omega (
            arith,
            k.balance h,
            end_all-handles h active u'.running,
            count-append h (closed done) (closed later),
            count-append h (opened done) (opened later),
          ))

-- A run of the user interface that ends closes each handle exactly as often as a process was created with
-- that handle, whatever the lines are, whatever Windows answers, and whichever processes are active at the end.
pub run_ui_handles :
    (h : ℕ) (exe_path : Bytes) (active : Process → Bool) (lines : List (Bytes × Answers))
    → count h (closed (run_ui exe_path active lines new_ui))
      ≡ count h (opened (run_ui exe_path active lines new_ui))
run_ui_handles h exe_path active lines =
    omega (arith, run_ui-balance h exe_path active lines new_ui tt)
