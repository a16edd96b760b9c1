-- ===== src/Examples/Profile.antt =====
-- A session of the profiler that starts in two procedures: the call of a third one after the inner
-- of the two returned counts the time of the trace twice.
use tclx.Base.{
  ℕ, suc, ◌+◌, ◌≤◌, ◌≡◌, refl, true, false, Option, none, some, List, [], ◌∷◌, Text, text, length,
  arith,
}
use tclx.Profile.{
  Time, Entry, Info, real, profile_init, turn_on, setup, delete_trace, push_entry, record_key,
  init_stack, scan_scope, pop_initial, push_command, update_times, take_time, add_scope_time,
  add_eval_time, pop_above, pop_entry, record_data, add_data, stack_names, zero_time,
}
use tclx.Profile.Times.{table_sum}
use tclx.Profile.Sound.{IsSound, push_entry-IsSound, length-record_key}
use tclx.Profile.Session.{Run, session_times}

abbrev at : ℕ → Time
at n c = n

abbrev or_init : Option Info → Info
or_init none = profile_init
or_init (some i) = i

profile_init-IsSound : IsSound profile_init
unfolding profile_init
profile_init-IsSound = record { size_is = refl; linked = tt; chain_in = refl }

abbrev frames : List (Text × ℕ)
frames = (text "inner", 2) ∷ (text "outer", 1) ∷ []

unfoldable turned_on : Info
turned_on = or_init (turn_on false true frames 1 (at 10) profile_init)

unfoldable called : Info
unfolding turned_on
called = or_init (setup (text "next") true 1 1 (at 15) turned_on)

turned_on_lem : turn_on false true frames 1 (at 10) profile_init ≡ some turned_on
unfolding turned_on turn_on profile_init push_entry init_stack scan_scope
turned_on_lem = refl

called_lem : setup (text "next") true 1 1 (at 15) turned_on ≡ some called
unfolding called setup pop_initial push_command update_times take_time add_scope_time add_eval_time
    pop_above pop_entry record_data record_key add_data stack_names turned_on turn_on profile_init
    push_entry init_stack scan_scope
called_lem = refl

run_of_call : Run real turned_on 5 called
unfolding turned_on turn_on profile_init push_entry init_stack scan_scope
run_of_call = Run.called (text "next") true 1 1 (at 15) Run.begun (omega arith) called_lem

has_entry : 1 ≤ length called.stack
unfolding called setup pop_initial push_command update_times take_time add_scope_time add_eval_time
    pop_above pop_entry record_data record_key add_data stack_names turned_on turn_on profile_init
    push_entry init_stack scan_scope
has_entry = omega arith

not_later : called.now real ≤ 20
unfolding called setup pop_initial push_command update_times take_time add_scope_time add_eval_time
    pop_above pop_entry record_data record_key add_data stack_names turned_on turn_on profile_init
    push_entry init_stack scan_scope
not_later = omega arith

off : profile_init.stack ≡ []
unfolding profile_init
off = refl

session_times_example :
    (m : Info) × (delete_trace (at 20) called ≡ some m)
    × (m.stack ≡ [])
    × (table_sum real m.table + 10 ≡ 20 + 5)
session_times_example =
    session_times real false true frames 1 5 (at 10) (at 20) profile_init turned_on called
      profile_init-IsSound off turned_on_lem run_of_call has_entry not_later

push_entry-IsSound_example :
    (j : Info) × (push_entry (text "<global>") true 0 0 (some 0) profile_init ≡ some j)
    × IsSound j
    × (length j.stack ≡ suc (length profile_init.stack))
push_entry-IsSound_example =
    push_entry-IsSound (text "<global>") true 0 0 (some 0) profile_init profile_init-IsSound
      (λ e. refl)

abbrev global : Entry
global = record {
  is_proc = true;
  proc_level = 0;
  scope_level = 0;
  eval_level = some 0;
  eval_time = zero_time;
  scope_time = zero_time;
  prev_scope = none;
  cmd_name = text "<global>";
}

abbrev one_entry : Info
one_entry = record {
  tracing = true;
  command_mode = false;
  eval_mode = false;
  now = zero_time;
  prev = zero_time;
  updated_times = false;
  stack = global ∷ [];
  stack_size = 1;
  scope_chain = some 0;
  table = [];
}

one_entry-IsSound : IsSound one_entry
one_entry-IsSound = record {
  size_is = refl;
  linked = (refl, (λ e. refl), tt);
  chain_in = omega arith;
}

length-record_key_example : length (record_key false global []) ≤ 1
length-record_key_example = length-record_key one_entry global [] one_entry-IsSound refl
