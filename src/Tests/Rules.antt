-- ===== src/Tests/Rules.antt =====
-- Pattern rules that replace one another, and one with several targets.
use make.Rule.Chain.{IsLinked}
use make.Rule.Install.{Installs, new_pattern_rule-Installs}
use make.Rule.Targets.{duplicates-targets}
use make.Rule.{
  Rule, Rules, all_equal, duplicates, find_duplicate, same_deps, new_pattern_rule, install,
  freerule, unlink, next_of, set_next, append_rule, linked,
}
use make.Text.{codes}
use make.Prelude.{ℕ, ◌≡◌, refl, Bool, true, false, Option, none, some, List, [], ◌∷◌, map, Returns}

abbrev object_rule : Rule
object_rule = record {
  address = 1;
  targets = codes "%.o" ∷ [];
  deps = codes "%.c" ∷ [];
  cmds = 7;
  terminal = false;
  in_use = false;
}

abbrev parser_rule : Rule
parser_rule = record {
  address = 2;
  targets = codes "%.c" ∷ codes "%.h" ∷ [];
  deps = codes "%.y" ∷ [];
  cmds = 8;
  terminal = false;
  in_use = false;
}

abbrev known : Rules
known = record { pattern_rules = object_rule ∷ parser_rule ∷ []; last_pattern_rule = some 2 }

known-IsLinked : IsLinked known
known-IsLinked = record { distinct = ((refl, tt), (tt, tt)); last = refl }

abbrev again : Rule
again = record object_rule { address = 3 }

addresses : Option (Bool × Rules) → Option (Bool × List ℕ)
addresses none = none
addresses (some (used, s)) = some (used, map (λ r. r.address) s.pattern_rules)

replaced : addresses (new_pattern_rule again true known) ≡ some (true, 2 ∷ 3 ∷ [])
unfolding addresses new_pattern_rule install find_duplicate duplicates all_equal same_deps freerule
    unlink next_of set_next append_rule linked
replaced = refl

kept : addresses (new_pattern_rule again false known) ≡ some (false, 1 ∷ 2 ∷ [])
unfolding addresses new_pattern_rule install find_duplicate duplicates all_equal same_deps freerule
    unlink next_of set_next append_rule linked
kept = refl

new_pattern_rule-Installs_example :
    Returns
      (new_pattern_rule again true known)
      λ r. IsLinked r.1 × Installs again true known.pattern_rules r
new_pattern_rule-Installs_example =
    new_pattern_rule-Installs again true known known-IsLinked (refl, (refl, tt))

-- The same targets and the same prerequisite.
duplicates-targets_example : duplicates parser_rule.targets parser_rule.deps parser_rule ≡ false
duplicates-targets_example =
    duplicates-targets parser_rule.targets parser_rule.deps parser_rule (codes "%.c") (codes "%.h")
      [] refl refl
