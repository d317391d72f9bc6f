-- ===== src/Rule/Targets.antt =====
-- `create_pattern_rule` and `install_pattern_rule`, and rules with several targets.
use make.Rule.Chain.{IsAbsent, IsDistinct, last_of, IsLinked}
use make.Rule.Install.{new_pattern_rule-Installs}
use make.Rule.{Rule, Rules, all_equal, duplicates, new_pattern_rule}
use make.Text.Equal.{streq-eq, streq_refl}
use make.Text.{Text, streq}
use make.Prelude.{
  ℕ, ◌≡◌, inl, inr, refl, sym, ap, ◌∙◌, Bool, true, false, Option, none, some, List, [], ◌∷◌, ◌==◌,
  if◌then◌else◌, ◌>>=◌, Returns, Bool-cases, arith,
}

-- `r->terminal = terminal`, and in `install_pattern_rule` `r->cmds` too.
unfoldable pub set_fields : ℕ → Bool → ℕ → List Rule → List Rule
set_fields p terminal cmds [] = []
set_fields p terminal cmds (r ∷ rs) =
    record r {
      terminal = if r.address == p then terminal else r.terminal;
      cmds = if r.address == p then cmds else r.cmds;
    }
    ∷ set_fields p terminal cmds rs

unfoldable pub created : ℕ → Bool → ℕ → Bool × Rules → Rules
unfolding set_fields
created address terminal cmds (false, s) = s
created address terminal cmds (true, s) = record s {
  pattern_rules = set_fields address terminal cmds s.pattern_rules;
}

-- The new rule stands at `address`.
unfoldable pub create_pattern_rule :
    ℕ → List Text → Bool → List Text → ℕ → Bool → Rules → Option Rules
unfolding created
create_pattern_rule address targets terminal deps cmds override s =
    let r : Rule = record {
      address = address;
      targets = targets;
      deps = deps;
      cmds = cmds;
      terminal = false;
      in_use = false;
    } in
    new_pattern_rule r override s >>= λ u. some (created address terminal cmds u)

-- One target; `cmds` is allocated only for a rule that is used.
unfoldable pub install_pattern_rule : ℕ → Text → List Text → ℕ → Bool → Rules → Option Rules
unfolding created
install_pattern_rule address target deps cmds terminal s =
    let r : Rule = record {
      address = address;
      targets = target ∷ [];
      deps = deps;
      cmds = 0;
      terminal = false;
      in_use = false;
    } in
    new_pattern_rule r false s >>= λ u. some (created address terminal cmds u)

set_fields-IsAbsent :
    (p : ℕ) (terminal : Bool) (cmds q : ℕ) (rs : List Rule)
    → IsAbsent q rs
    → IsAbsent q (set_fields p terminal cmds rs)
unfolding set_fields
set_fields-IsAbsent p terminal cmds q [] h = tt
set_fields-IsAbsent p terminal cmds q (r ∷ rs) (n, h) =
    (n, set_fields-IsAbsent p terminal cmds q rs h)

set_fields-IsDistinct :
    (p : ℕ) (terminal : Bool) (cmds : ℕ) (rs : List Rule)
    → IsDistinct rs
    → IsDistinct (set_fields p terminal cmds rs)
unfolding set_fields
set_fields-IsDistinct p terminal cmds [] h = tt
set_fields-IsDistinct p terminal cmds (r ∷ rs) (n, h) =
    (set_fields-IsAbsent p terminal cmds r.address rs n, set_fields-IsDistinct p terminal cmds rs h)

last_of-set_fields :
    (p : ℕ) (terminal : Bool) (cmds : ℕ) (d : Option ℕ) (rs : List Rule)
    → last_of d (set_fields p terminal cmds rs) ≡ last_of d rs
unfolding set_fields
last_of-set_fields p terminal cmds d [] = refl
last_of-set_fields p terminal cmds d (r ∷ rs) =
    last_of-set_fields p terminal cmds (some r.address) rs

created-IsLinked :
    (p : ℕ) (terminal : Bool) (cmds : ℕ) (u : Bool × Rules)
    → IsLinked u.1
    → IsLinked (created p terminal cmds u)
unfolding created
created-IsLinked p terminal cmds (false, s) v = v
created-IsLinked p terminal cmds (true, s) v = record {
  distinct = set_fields-IsDistinct p terminal cmds s.pattern_rules v.distinct;
  last = v.last ∙ sym (last_of-set_fields p terminal cmds none s.pattern_rules);
}

-- On a well linked chain, creating a rule at a new address succeeds and leaves a well linked chain.
create_pattern_rule-IsLinked :
    (address : ℕ) (targets : List Text) (terminal : Bool) (deps : List Text) (cmds : ℕ)
    (override : Bool) (s : Rules)
    → IsLinked s
    → IsAbsent address s.pattern_rules
    → Returns (create_pattern_rule address targets terminal deps cmds override s) IsLinked
unfolding create_pattern_rule
create_pattern_rule-IsLinked address targets terminal deps cmds override s v fresh =
    let r : Rule = record {
      address = address;
      targets = targets;
      deps = deps;
      cmds = cmds;
      terminal = false;
      in_use = false;
    } in
    let (u, run, (w, _)) = new_pattern_rule-Installs r override s v fresh in
    (
      created address terminal cmds u,
      rw (run, ◌>>=◌) refl,
      created-IsLinked address terminal cmds u w,
    )

all_equal-ne :
    (t a b : Text) (ts : List Text) → streq a b ≡ false → all_equal t (a ∷ b ∷ ts) ≡ false
unfolding all_equal
all_equal-ne t a b ts h = elim (Bool-cases (streq t a)) [
  | inl e ↦ elim (Bool-cases (streq t b)) [
    | inl e' ↦
        let a=b : a ≡ b = sym (streq-eq t a e) ∙ streq-eq t b e' in
        let same : streq a b ≡ true = rw a=b (streq_refl b) in absurd (ground arith)
    | inr e' ↦ rw (e, e') refl
  ]
  | inr e ↦ rw e refl
]

-- A rule whose first two targets differ is a duplicate of no rule, itself included.
pub duplicates-targets :
    (targets deps : List Text) (r : Rule) (a b : Text) (ts : List Text)
    → r.targets ≡ a ∷ b ∷ ts
    → streq a b ≡ false
    → duplicates targets deps r ≡ false
unfolding duplicates
duplicates-targets [] deps r a b ts e h = refl
duplicates-targets (t ∷ targets) deps r a b ts e h =
    let first : all_equal t r.targets ≡ false = ap (all_equal t) e ∙ all_equal-ne t a b ts h in
    rw first (duplicates-targets targets deps r a b ts e h)
