-- ===== src/Variable/Scopes.antt =====
-- The lists of variable sets: `define_variable_in_set`, `undefine_variable_in_set`,
-- `lookup_variable`, `push_new_variable_scope` and `pop_variable_scope` on the store of sets and
-- lists.
use make.Hash.{u64}
use make.Text.{Text, streq}
use make.Variable.{Origin, Variable, Definition, find, define_in, undefine_in, merge_loop}
use make.Prelude.{
  at, ℕ, zero, suc, ◌+◌, Bool, true, false, not, ◌&&◌, ◌||◌, Option, none, some, List, [], ◌∷◌,
  ◌==◌, if◌then◌else◌, ◌>>=◌,
}

-- `struct variable_set_list`
pub record SetList : Type 0 where
  pub next : Option ℕ
  pub set : ℕ
  pub next_is_parent : Bool

-- Addresses from `fresh` on are not in use.
pub record Scopes : Type 0 where
  pub sets : ℕ → List Variable
  pub lists : ℕ → SetList
  pub current_variable_set_list : Option ℕ
  pub fresh : ℕ
  pub env_overrides : Bool
  pub variable_changenum : ℕ

-- `if (set == NULL) set = &global_variable_set;`
abbrev pub set_or_global : Option ℕ → ℕ
set_or_global none = 0
set_or_global (some set) = set

abbrev pub vacant : Option Variable → Bool
vacant none = true
vacant (some v) = false

-- `if (set == &global_variable_set) ++variable_changenum;`
unfoldable pub bump : Bool → ℕ → Scopes → Scopes
bump change set s =
    if change && (set == 0)
    then record s { variable_changenum = u64 (s.variable_changenum + 1) }
    else s

unfoldable pub define_variable_in_set : Definition → Option ℕ → Scopes → Variable × Scopes
unfolding bump
define_variable_in_set d set s =
    let a = set_or_global set in
    let r = define_in s.env_overrides d (s.sets a) in
    (r.0, bump (vacant (find d.name (s.sets a))) a (record s { sets = at a r.1 s.sets }))

unfoldable pub undefine_variable_in_set : Text → Origin → Option ℕ → Scopes → Scopes
unfolding bump
undefine_variable_in_set name origin set s =
    let a = set_or_global set in
    let left = undefine_in s.env_overrides name origin (s.sets a) in
    bump (not (vacant (find name (s.sets a))) && vacant (find name left)) a
      (record s { sets = at a left s.sets })

-- `current_variable_set_list->set`; a null dereference is `none`.
abbrev pub current_set : Scopes → Option ℕ
current_set s = s.current_variable_set_list >>= λ l. some ((s.lists l).set)

-- The macro.
unfoldable pub define_variable : Definition → Scopes → Option (Variable × Scopes)
unfolding define_variable_in_set
define_variable d s = current_set s >>= λ set. some (define_variable_in_set d (some set) s)

-- `var->value = value` for the variable of the name.
unfoldable pub assigned_set : Text → Text → List Variable → List Variable
assigned_set name value [] = []
assigned_set name value (v ∷ vs) =
    let later = assigned_set name value vs in
    if streq v.name name then record v { value = value } ∷ vs else v ∷ later

unfoldable pub assign_value : Text → Text → ℕ → Scopes → Scopes
unfolding assigned_set
assign_value name value set s = record s {
  sets = at set (assigned_set name value (s.sets set)) s.sets;
}

-- The variable if the lookup may see it, `lookup_special_var` being `special`.
unfoldable pub seen : (Variable → Variable) → Bool → Option Variable → Option Variable
seen special is_parent none = none
seen special is_parent (some v) =
    if not is_parent || not v.private_var then some (if v.special then special v else v) else none

abbrev pub first_seen : Option Variable → Option (Option Variable) → Option (Option Variable)
first_seen none later = later
first_seen (some v) later = some (some v)

-- The loop over `setlist`; `none` when the fuel runs out.
unfoldable pub lookup_loop :
    ℕ → (Variable → Variable) → Text → Option ℕ → Bool → Scopes → Option (Option Variable)
unfolding seen
lookup_loop fuel special name none is_parent s = some none
lookup_loop zero special name (some l) is_parent s = none
lookup_loop (suc fuel) special name (some l) is_parent s =
    let list = s.lists l in
    first_seen (seen special is_parent (find name (s.sets list.set)))
      (lookup_loop fuel special name list.next (is_parent || list.next_is_parent) s)

unfoldable pub lookup_variable :
    ℕ → (Variable → Variable) → Text → Scopes → Option (Option Variable)
unfolding lookup_loop
lookup_variable fuel special name s =
    lookup_loop fuel special name s.current_variable_set_list false s

-- The lists of sets of the file are `variables`; the current ones are put back.
unfoldable pub lookup_variable_for_file :
    ℕ
    → (Variable → Variable)
    → Text
    → Option (Option ℕ)
    → Scopes
    → Option (Option Variable) × Scopes
unfolding lookup_variable
lookup_variable_for_file fuel special name none s = (lookup_variable fuel special name s, s)
lookup_variable_for_file fuel special name (some variables) s =
    let t = record s { current_variable_set_list = variables } in
    (
      lookup_variable fuel special name t,
      record t { current_variable_set_list = s.current_variable_set_list },
    )

unfoldable pub create_new_variable_set : Scopes → ℕ × Scopes
create_new_variable_set s = (
  s.fresh,
  record s {
    sets = at s.fresh [] s.sets;
    lists =
        at s.fresh
          (record { next = s.current_variable_set_list; set = s.fresh; next_is_parent = false })
          s.lists;
    fresh = s.fresh + 1;
  },
)

abbrev pub is_global : Option ℕ → Bool
is_global none = false
is_global (some l) = l == 0

-- The new set becomes that of `global_setlist`, and the new node takes what was there.
unfoldable pub swap_global : ℕ → Scopes → Scopes
swap_global new s =
    let global = s.lists 0 in
    let node = s.lists new in
    let moved = at new (record node { set = global.set; next = global.next }) s.lists in
    record s {
      lists = at 0 (record global { set = node.set; next = some new }) moved;
      current_variable_set_list = some 0;
    }

unfoldable pub push_new_variable_scope : Scopes → Scopes
unfolding create_new_variable_set swap_global
push_new_variable_scope s =
    let (new, t) = create_new_variable_set s in
    if is_global ((t.lists new).next)
    then swap_global new t
    else record t { current_variable_set_list = some new }

-- `next` is the node behind the current one.
unfoldable pub pop_from : ℕ → Option ℕ → Scopes → Option Scopes
pop_from l none s = none
pop_from l (some next) s =
    let list = s.lists l in
    let setlist = s.lists next in
    some (
      if l == 0
      then record s { sets = at list.set [] s.sets; lists = at 0 setlist s.lists }
      else record s { sets = at list.set [] s.sets; current_variable_set_list = some next })

-- A failed assertion and a null dereference are `none`.
unfoldable pub pop_variable_scope : Scopes → Option Scopes
unfolding pop_from
pop_variable_scope s = s.current_variable_set_list >>= λ l. pop_from l ((s.lists l).next) s

-- The `inc` of `merge_variable_sets`.
unfoldable pub merge_variable_sets : ℕ → ℕ → Scopes → Scopes
unfolding merge_loop
merge_variable_sets to_set from_set s =
    let inc = if to_set == 0 then 1 else 0 in
    let r = merge_loop inc (s.sets to_set, s.variable_changenum) (s.sets from_set) in
    record s { sets = at to_set r.0 s.sets; variable_changenum = r.1 }
