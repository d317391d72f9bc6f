-- ===== src/Variable.antt =====
-- src/variable.c: variables, their sets and the lists of sets that scopes are. The hash table of a
-- set stands as the list of its variables, one for each name; `find`, `replace` and `remove` are
-- what its calls do. Sets and nodes of lists of sets are known by their addresses, 0 that of
-- `global_variable_set` and of `global_setlist`.
pub mod Sets
pub mod Strongest
pub mod Scopes
pub mod Restore
pub mod Pushed
pub mod Balance
pub mod Lookup
pub mod Parse
use make.Hash.{u64}
use make.Text.{Text, streq}
use make.Prelude.{
  ℕ, ◌+◌, Bool, true, false, ◌&&◌, ◌||◌, Option, none, some, List, [], ◌∷◌, leb, ◌==◌,
  if◌then◌else◌,
}

pub data Origin : Type 0 where
  o_default : Origin
  o_env : Origin
  o_file : Origin
  o_env_override : Origin
  o_command : Origin
  o_override : Origin
  o_automatic : Origin
  o_invalid : Origin

-- `(int) origin`
abbrev pub int : Origin → ℕ
int o_default = 0
int o_env = 1
int o_file = 2
int o_env_override = 3
int o_command = 4
int o_override = 5
int o_automatic = 6
int o_invalid = 7

pub data Flavor : Type 0 where
  f_bogus : Flavor
  f_simple : Flavor
  f_recursive : Flavor
  f_expand : Flavor
  f_append : Flavor
  f_conditional : Flavor
  f_shell : Flavor
  f_append_value : Flavor

pub data Export : Type 0 where
  v_default : Export
  v_export : Export
  v_noexport : Export
  v_ifset : Export

pub record Floc : Type 0 where
  pub filenm : Option Text
  pub lineno : ℕ
  pub offset : ℕ

-- `length` is the number of bytes of `name`.
pub record Variable : Type 0 where
  pub name : Text
  pub value : Text
  pub fileinfo : Floc
  pub recursive : Bool
  pub append : Bool
  pub conditional : Bool
  pub per_target : Bool
  pub special : Bool
  pub exportable : Bool
  pub expanding : Bool
  pub private_var : Bool
  pub exp_count : ℕ
  pub flavor : Flavor
  pub origin : Origin
  pub export : Export

-- The arguments of `define_variable_in_set` but the set.
pub record Definition : Type 0 where
  pub name : Text
  pub value : Text
  pub origin : Origin
  pub recursive : Bool
  pub flocp : Option Floc

unfoldable pub find : Text → List Variable → Option Variable
find name [] = none
find name (v ∷ vs) = let later = find name vs in if streq v.name name then some v else later

-- What becomes of the list when the variable of this name is assigned to.
unfoldable pub replace : Text → Variable → List Variable → List Variable
replace name w [] = w ∷ []
replace name w (v ∷ vs) =
    let later = replace name w vs in if streq v.name name then w ∷ vs else v ∷ later

unfoldable pub remove : Text → List Variable → List Variable
remove name [] = []
remove name (v ∷ vs) = let later = remove name vs in if streq v.name name then later else v ∷ later

abbrev pub is_env : Origin → Bool
is_env o_env = true
is_env _ = false

-- `if (env_overrides && origin == o_env) origin = o_env_override;`
unfoldable pub raise : Bool → Origin → Origin
raise env_overrides origin = if env_overrides && is_env origin then o_env_override else origin

unfoldable pub is_letter : ℕ → Bool
is_letter c = c == b'_' || ((leb b'A' c && leb c b'Z') || (leb b'a' c && leb c b'z'))

unfoldable pub is_word : ℕ → Bool
unfolding is_letter
is_word c = is_letter c || (leb b'0' c && leb c b'9')

unfoldable pub all_word : Text → Bool
unfolding is_word
all_word [] = true
all_word (c ∷ name) = is_word c && all_word name

unfoldable pub is_exportable : Text → Bool
unfolding all_word
is_exportable [] = false
is_exportable (c ∷ name) = is_letter c && all_word name

abbrev pub no_floc : Floc
no_floc = record { filenm = none; lineno = 0; offset = 0 }

-- `if (flocp != 0) v->fileinfo = *flocp; else v->fileinfo.filenm = 0;`
abbrev pub place : Option Floc → Floc → Floc
place none old = record old { filenm = none }
place (some l) old = l

-- A new variable, after `xcalloc`.
unfoldable pub new_variable : Definition → Origin → Variable
unfolding is_exportable
new_variable d origin = record {
  name = d.name;
  value = d.value;
  fileinfo = place d.flocp no_floc;
  recursive = d.recursive;
  append = false;
  conditional = false;
  per_target = false;
  special = false;
  exportable = is_exportable d.name;
  expanding = false;
  private_var = false;
  exp_count = 0;
  flavor = f_bogus;
  origin = origin;
  export = v_default;
}

-- The variable has been defined before.
unfoldable pub redefine : Bool → Definition → Origin → Variable → Variable
unfolding raise
redefine env_overrides d origin v =
    let w = record v { origin = raise env_overrides v.origin } in
    if leb (int w.origin) (int origin)
    then record w {
      value = d.value;
      fileinfo = place d.flocp w.fileinfo;
      origin = origin;
      recursive = d.recursive;
    }
    else w

-- The variable that the definition leaves in the slot.
unfoldable pub defined_variable : Bool → Definition → Option Variable → Variable
unfolding new_variable redefine
defined_variable env_overrides d none = new_variable d (raise env_overrides d.origin)
defined_variable env_overrides d (some v) =
    redefine env_overrides d (raise env_overrides d.origin) v

unfoldable pub define_in : Bool → Definition → List Variable → Variable × List Variable
unfolding defined_variable
define_in env_overrides d set =
    let v = defined_variable env_overrides d (find d.name set) in (v, replace d.name v set)

-- What a weaker undefinition leaves; `none` when the variable is deleted.
unfoldable pub undefined : Bool → Origin → Variable → Option Variable
unfolding raise
undefined env_overrides origin v =
    let w = record v { origin = raise env_overrides v.origin } in
    if leb (int w.origin) (int (raise env_overrides origin)) then none else some w

unfoldable pub put_or_remove : Text → Option Variable → List Variable → List Variable
put_or_remove name none set = remove name set
put_or_remove name (some v) set = replace name v set

unfoldable pub undefine_slot :
    Bool → Text → Origin → Option Variable → List Variable → List Variable
unfolding undefined put_or_remove
undefine_slot env_overrides name origin none set = set
undefine_slot env_overrides name origin (some v) set =
    put_or_remove name (undefined env_overrides origin v) set

unfoldable pub undefine_in : Bool → Text → Origin → List Variable → List Variable
unfolding undefine_slot
undefine_in env_overrides name origin set =
    undefine_slot env_overrides name origin (find name set) set

unfoldable pub merge_slot : ℕ → Option Variable → Variable → List Variable × ℕ → List Variable × ℕ
merge_slot inc none v (to_set, changenum) = (replace v.name v to_set, u64 (changenum + inc))
merge_slot inc (some w) v (to_set, changenum) = (to_set, changenum)

-- The loop over the slots of `from_set`, with `variable_changenum`.
unfoldable pub merge_loop : ℕ → List Variable × ℕ → List Variable → List Variable × ℕ
unfolding merge_slot
merge_loop inc to [] = to
merge_loop inc to (v ∷ from_set) = merge_loop inc (merge_slot inc (find v.name to.0) v to) from_set
