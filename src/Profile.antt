-- ===== src/Profile.antt =====
-- generic/tclXprofile.c: the stack of the profiler and the table of times. A clock_t is a natural
-- number, and the clocks do not go back; a time, which the source keeps for real time and for CPU
-- time, is a function of the clock.
pub mod Times
pub mod Sound
pub mod Account
pub mod Setup
pub mod Session
pub mod Command
use tclx.Base.{
  ℕ, zero, suc, ◌+◌, ◌-◌, Bool, true, false, not, ◌&&◌, ◌||◌, Option, none, some, List, [], ◌∷◌,
  Text, text, text_eq, ltb, leb, ◌==◌, if◌then◌else◌, length,
}

pub data Clock : Type 0 where
  real cpu : Clock

abbrev pub Time : Type 0
Time = Clock → ℕ

abbrev pub zero_time : Time
zero_time c = 0

abbrev pub add_time : Time → Time → Time
add_time t u c = t c + u c

-- profEntry_t. A pointer to an entry is the number of entries below it; `none` is NULL, and for
-- the level UNKNOWN_LEVEL.
pub record Entry : Type 0 where
  pub is_proc : Bool
  pub proc_level : ℕ
  pub scope_level : ℕ
  pub eval_level : Option ℕ
  pub eval_time : Time
  pub scope_time : Time
  pub prev_scope : Option ℕ
  pub cmd_name : Text

-- profDataEntry_t.
pub record Data : Type 0 where
  pub count : ℕ
  pub time : Time

-- profInfo_t, less the command that is intercepted. `now` and `prev` are the times of this and the
-- previous trace, the top of the stack comes first, and the table has lists of names as keys.
pub record Info : Type 0 where
  pub tracing : Bool
  pub command_mode : Bool
  pub eval_mode : Bool
  pub now : Time
  pub prev : Time
  pub updated_times : Bool
  pub stack : List Entry
  pub stack_size : ℕ
  pub scope_chain : Option ℕ
  pub table : List (List Text × Data)

-- `none` is a panic or a NULL that is followed.
abbrev pub and_then {ℓ κ} : {A : Type ℓ} {B : Type κ} → Option A → (A → Option B) → Option B
and_then none k = none
and_then (some a) k = k a

-- The loops along the scope chain, from the entry that the pointer means. The pointers of a chain
-- go down, so that the entries above are left behind.
unfoldable pub scan_scope : (Entry → Bool) → List Entry → Option ℕ → Option (Option ℕ)
scan_scope skip es none = some none
scan_scope skip [] (some h) = none
scan_scope skip (e ∷ es) (some h) =
    let below = scan_scope skip es (some h) in
    let next = scan_scope skip es e.prev_scope in
    if h == length es
    then if skip e then elim e.prev_scope [ none ↦ none | some h' ↦ next ] else some (some h)
    else below

-- The entries that a new one is not chained to.
abbrev pub behind_scope : Bool → ℕ → Entry → Bool
behind_scope is_proc level e =
    ltb 0 e.proc_level
    && ((is_proc && leb level e.scope_level) || (not is_proc && ltb level e.scope_level))

unfoldable pub push_entry : Text → Bool → ℕ → ℕ → Option ℕ → Info → Option Info
unfolding scan_scope
push_entry name is_proc proc_level scope_level eval_level i =
    and_then (scan_scope (behind_scope is_proc scope_level) i.stack i.scope_chain) (λ scope.
      some (record i {
        stack =
            record {
              is_proc = is_proc;
              proc_level = proc_level;
              scope_level = scope_level;
              eval_level = eval_level;
              eval_time = zero_time;
              scope_time = zero_time;
              prev_scope = scope;
              cmd_name = name;
            }
            ∷ i.stack;
        stack_size = suc i.stack_size;
        scope_chain = some (length i.stack);
      }))

unfoldable pub stack_names : List Entry → List Text
stack_names [] = []
stack_names (e ∷ es) = e.cmd_name ∷ stack_names es

-- The names along the scope chain.
unfoldable pub scope_names : List Entry → Option ℕ → List Text
scope_names es none = []
scope_names [] (some h) = []
scope_names (e ∷ es) (some h) =
    let below = scope_names es (some h) in
    let next = scope_names es e.prev_scope in if h == length es then e.cmd_name ∷ next else below

abbrev pub names_eq : List Text → List Text → Bool
names_eq [] [] = true
names_eq [] (y ∷ ys) = false
names_eq (x ∷ xs) [] = false
names_eq (x ∷ xs) (y ∷ ys) = text_eq x y && names_eq xs ys

-- The entry of the table is found or created, and incremented.
unfoldable pub add_data : List Text → Time → List (List Text × Data) → List (List Text × Data)
add_data key t [] = (key, record { count = 1; time = t }) ∷ []
add_data key t ((k, d) ∷ table) =
    let rest = add_data key t table in
    if names_eq key k
    then (k, record { count = suc d.count; time = add_time d.time t }) ∷ table
    else (k, d) ∷ rest

-- The time of an entry that is recorded in the mode.
abbrev pub entry_time : Bool → Entry → Time
entry_time eval_mode e = if eval_mode then e.eval_time else e.scope_time

-- The names that RecordData puts in `stackArgv`, for the entry on the top.
unfoldable pub record_key : Bool → Entry → List Entry → List Text
unfolding stack_names scope_names
record_key eval_mode e es =
    if eval_mode then e.cmd_name ∷ stack_names es else e.cmd_name ∷ scope_names es e.prev_scope

unfoldable pub record_data : Entry → List Entry → Info → Info
unfolding record_key add_data
record_data e es i = record i {
  table = add_data (record_key i.eval_mode e es) (entry_time i.eval_mode e) i.table;
}

abbrev pub pointer_to_top : List Entry → Option ℕ
pointer_to_top [] = none
pointer_to_top (e ∷ es) = some (length es)

unfoldable pub pop_entry : Info → Option Info
unfolding record_data
pop_entry i = elim i.stack [
  | [] ↦ none
  | e ∷ es ↦ some (record (record_data e es i) {
    stack = es;
    stack_size = i.stack_size - 1;
    scope_chain = pointer_to_top es;
  })
]

unfoldable pub add_scope_time : Time → List Entry → Option ℕ → List Entry
add_scope_time t es none = es
add_scope_time t [] (some h) = []
add_scope_time t (e ∷ es) (some h) =
    let below = add_scope_time t es (some h) in
    if h == length es then record e { scope_time = add_time e.scope_time t } ∷ es else e ∷ below

unfoldable pub add_eval_time : Time → List Entry → List Entry
add_eval_time t [] = []
add_eval_time t (e ∷ es) = record e { eval_time = add_time e.eval_time t } ∷ es

-- The times of this trace, unless they were taken already; `clock` is TclXOSElapsedTime.
unfoldable pub take_time : Time → Info → Info
take_time clock i =
    if i.updated_times then i else record i { prev = i.now; now = clock; updated_times = true }

abbrev pub interval : Info → Time
interval i c = i.now c - i.prev c

-- UpdateTOSTimes.
unfoldable pub update_times : Time → Info → Info
unfolding take_time add_scope_time add_eval_time
update_times clock i =
    let i' = take_time clock i in
    let t = interval i' in
    record i' { stack = add_scope_time t (add_eval_time t i'.stack) i'.scope_chain }

abbrev pub is_above : ℕ → List Entry → Option Bool
is_above level [] = none
is_above level (e ∷ es) = some (ltb level e.proc_level)

abbrev is_initial : List Entry → Bool
is_initial [] = false
is_initial (e ∷ es) = elim e.eval_level [ none ↦ true | some l ↦ false ]

-- The loop that pops the initial entries above the level, on fuel.
unfoldable pub pop_above : ℕ → ℕ → Info → Option Info
unfolding pop_entry
pop_above zero level i = none
pop_above (suc f) level i =
    let rest = pop_above f level in
    and_then (is_above level i.stack) (λ above.
      if above then if is_initial i.stack then and_then (pop_entry i) rest else none else some i)

unfoldable pub pop_initial : ℕ → Time → Info → Option Info
unfolding update_times pop_above
pop_initial level clock i =
    and_then (is_above level i.stack)
      (λ above. if above then pop_above (length i.stack) level (update_times clock i) else some i)

unfoldable pub push_command : Text → Bool → ℕ → ℕ → Time → Info → Option Info
unfolding update_times push_entry
push_command name is_proc level scope clock i =
    if i.command_mode || is_proc
    then if is_proc
      then push_entry name true (suc level) (suc scope) (some level) (update_times clock i)
      else push_entry name false level scope (some level) (update_times clock i)
    else some i

abbrev pub left_now : Info → Info
left_now i = record i { updated_times = false }

-- ProfCommandEvalSetup, for the command's full name, whether it is a procedure, the level that the
-- trace passed, and the level of the variables' frame.
unfoldable pub setup : Text → Bool → ℕ → ℕ → Time → Info → Option Info
unfolding pop_initial push_command
setup name is_proc level scope clock i =
    and_then (pop_initial level clock i)
      (λ j. and_then (push_command name is_proc level scope clock j) (λ k. some (left_now k)))

unfoldable pub finishup : Bool → Time → Info → Option Info
unfolding update_times pop_entry
finishup is_proc clock i =
    if i.tracing && (i.command_mode || is_proc)
    then and_then (pop_entry (update_times clock i)) (λ j. some (left_now j))
    else some (left_now i)

abbrev pub top_level : List Entry → Option ℕ
top_level [] = none
top_level (e ∷ es) = some e.proc_level

-- InitializeProcStack: the frames with their words and levels, the innermost first.
unfoldable pub init_stack : List (Text × ℕ) → Info → Option Info
unfolding push_entry
init_stack [] i = some i
init_stack ((name, level) ∷ frames) i =
    and_then (init_stack frames i)
      (λ j. and_then (top_level j.stack) (λ l. push_entry name true (suc l) level none j))

abbrev in_scope : ℕ → Entry → Bool
in_scope level e = leb level e.scope_level && ltb 0 e.proc_level

abbrev started : Bool → Bool → Info → Info
started command_mode eval_mode i = record i {
  table = [];
  tracing = true;
  command_mode = command_mode;
  eval_mode = eval_mode;
  now = zero_time;
  prev = zero_time;
  updated_times = false;
}

-- TurnOnProfiling, for the frames of the interpreter and the level of the variables' frame.
unfoldable pub turn_on : Bool → Bool → List (Text × ℕ) → ℕ → Time → Info → Option Info
unfolding push_entry init_stack scan_scope
turn_on command_mode eval_mode frames scope clock i =
    and_then (push_entry (text "<global>") true 0 0 (some 0) (started command_mode eval_mode i))
      (λ j. and_then (init_stack frames j) (λ k.
        and_then (scan_scope (in_scope scope) k.stack k.scope_chain)
          (λ chain. some (record k { scope_chain = chain; now = clock }))))

abbrev pub is_empty : List Entry → Bool
is_empty [] = true
is_empty (e ∷ es) = false

-- The loop of DeleteProfTrace, on fuel.
unfoldable pub pop_all : ℕ → Info → Option Info
unfolding pop_entry
pop_all zero i = if is_empty i.stack then some i else none
pop_all (suc f) i =
    let rest = pop_all f in if is_empty i.stack then some i else and_then (pop_entry i) rest

unfoldable pub delete_trace : Time → Info → Option Info
unfolding update_times pop_all
delete_trace clock i = pop_all (length i.stack) (update_times clock (record i { tracing = false }))

unfoldable pub profile_init : Info
profile_init = record {
  tracing = false;
  command_mode = false;
  eval_mode = false;
  now = zero_time;
  prev = zero_time;
  updated_times = false;
  stack = [];
  stack_size = 0;
  scope_chain = none;
  table = [];
}
