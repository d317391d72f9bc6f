-- ===== src/Rule.antt =====
-- src/rule.c: `new_pattern_rule` and `freerule` on the chain `pattern_rules`. A `struct rule` is
-- known by its address; the chain is the list of its rules, and assigning to the `next` of a rule
-- cuts the list there. A null dereference and `abort` are `none`.
pub mod Chain
pub mod Install
pub mod Targets
use make.Text.{Text, streq}
use make.Prelude.{
  ℕ, Bool, true, false, ◌&&◌, ◌||◌, Option, none, some, List, [], ◌∷◌, ◌==◌, if◌then◌else◌, ◌>>=◌,
}

-- `deps` has the names of the prerequisites.
pub record Rule : Type 0 where
  pub address : ℕ
  pub targets : List Text
  pub deps : List Text
  pub cmds : ℕ
  pub terminal : Bool
  pub in_use : Bool

pub record Rules : Type 0 where
  pub pattern_rules : List Rule
  pub last_pattern_rule : Option ℕ

-- The loop over `j`.
unfoldable pub all_equal : Text → List Text → Bool
all_equal target [] = true
all_equal target (t ∷ ts) = streq target t && all_equal target ts

-- The loop over `d` and `d2`.
unfoldable pub same_deps : List Text → List Text → Bool
same_deps [] [] = true
same_deps (d ∷ ds) (e ∷ es) = streq d e && same_deps ds es
same_deps _ _ = false

-- The loop over `i`: whether some round finds `r` to be a duplicate of the rule.
unfoldable pub duplicates : List Text → List Text → Rule → Bool
duplicates [] deps r = false
duplicates (t ∷ ts) deps r =
    (all_equal t r.targets && same_deps deps r.deps) || duplicates ts deps r

-- The loop over `r`: the duplicate and `lastrule`.
unfoldable pub find_duplicate : Rule → Option ℕ → List Rule → Option (Rule × Option ℕ)
find_duplicate rule lastrule [] = none
find_duplicate rule lastrule (r ∷ rs) =
    let later = find_duplicate rule (some r.address) rs in
    if duplicates rule.targets rule.deps r then some (r, lastrule) else later

-- `p->next = tail`
unfoldable pub set_next : ℕ → List Rule → List Rule → List Rule
set_next p tail [] = []
set_next p tail (r ∷ rs) =
    let rest = set_next p tail rs in if r.address == p then r ∷ tail else r ∷ rest

-- `p->next`
unfoldable pub next_of : ℕ → List Rule → List Rule
next_of p [] = []
next_of p (r ∷ rs) = let rest = next_of p rs in if r.address == p then rs else rest

abbrev pub points_to : Option ℕ → ℕ → Bool
points_to none p = false
points_to (some q) p = q == p

abbrev pub head_of : List Rule → Option ℕ
head_of [] = none
head_of (r ∷ rs) = some r.address

unfoldable pub unlink : Bool → Option ℕ → List Rule → List Rule → Option (List Rule)
unlink true (some p) next rules = none
unlink true none next rules = some next
unlink false (some p) next rules = some (set_next p next rules)
unlink false none next rules = some rules

unfoldable pub freerule : ℕ → Option ℕ → Rules → Option Rules
unfolding unlink
freerule rule lastrule s =
    unlink (points_to (head_of s.pattern_rules) rule) lastrule (next_of rule s.pattern_rules)
      s.pattern_rules
    >>= λ rules. some (record {
      pattern_rules = rules;
      last_pattern_rule =
          if points_to s.last_pattern_rule rule then lastrule else s.last_pattern_rule;
    })

-- `if (pattern_rules == 0) pattern_rules = rule; else last_pattern_rule->next = rule;`
unfoldable pub linked : List Rule → Option ℕ → Rule → Option (List Rule)
linked [] last rule = some (rule ∷ [])
linked (r ∷ rs) none rule = none
linked (r ∷ rs) (some p) rule = some (set_next p (rule ∷ []) (r ∷ rs))

unfoldable pub append_rule : Rule → Rules → Option Rules
unfolding linked
append_rule rule s = linked s.pattern_rules s.last_pattern_rule rule >>= λ rules.
    some (record { pattern_rules = rules; last_pattern_rule = some rule.address })

-- What follows the search.
unfoldable pub install : Rule → Bool → Option (Rule × Option ℕ) → Rules → Option (Bool × Rules)
unfolding freerule append_rule
install rule override none s = append_rule rule s >>= λ s'. some (true, s')
install rule true (some (r, lastrule)) s =
    freerule r.address lastrule s >>= λ t. append_rule rule t >>= λ s'. some (true, s')
install rule false (some (r, lastrule)) s = freerule rule.address none s >>= λ s'. some (false, s')

unfoldable pub new_pattern_rule : Rule → Bool → Rules → Option (Bool × Rules)
unfolding install
new_pattern_rule rule override s =
    let rule' = record rule { in_use = false; terminal = false } in
    install rule' override (find_duplicate rule' none s.pattern_rules) s
