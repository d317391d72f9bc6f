-- ===== src/Tests/Definitions.antt =====
-- Lines that define variables, and lines that do not.
use make.Variable.{f_append, f_expand, f_simple}
use make.Variable.Parse.Print.{parse_variable_definition-print}
use make.Variable.Parse.Passed.{AllSpace}
use make.Variable.Parse.Split.{Reads, parse_variable_definition-Reads}
use make.Variable.Parse.{
  parse_variable_definition, parse_loop, after_round, round, blank_round, colon, second_colon,
  third_colon, plain_round, two_bytes, other, reference, skip_reference,
}
use make.Text.{Text, codes, next_token, is_space, is_blank}
use make.Prelude.{◌≡◌, refl, none, some, ◌++◌, inr, Returns}

appended :
    parse_variable_definition (codes " a$(b:c=d) += x y")
    ≡ some (
        some (record {
          name = codes "a$(b:c=d)";
          flavor = f_append;
          value = codes "x y";
          after = codes " x y";
        }))
unfolding parse_variable_definition parse_loop after_round round blank_round colon plain_round
    two_bytes other reference skip_reference next_token is_space is_blank
appended = refl

expanded :
    parse_variable_definition (codes "v:::=1")
    ≡ some (
        some (record { name = codes "v"; flavor = f_expand; value = codes "1"; after = codes "1" }))
unfolding parse_variable_definition parse_loop after_round round blank_round colon second_colon
    third_colon plain_round two_bytes other reference skip_reference next_token is_space is_blank
expanded = refl

rule : parse_variable_definition (codes "all: x = y") ≡ some none
unfolding parse_variable_definition parse_loop after_round round blank_round colon second_colon
    third_colon plain_round two_bytes other reference skip_reference next_token is_space is_blank
rule = refl

parse_variable_definition-Reads_example :
    (spaces : Text) × (line : Text) × AllSpace spaces
    × (codes " a$(b:c=d) += x y" ≡ spaces ++ line)
    × Returns (parse_variable_definition (codes " a$(b:c=d) += x y")) (Reads line)
parse_variable_definition-Reads_example =
    parse_variable_definition-Reads (codes " a$(b:c=d) += x y")

parse_variable_definition-print_example :
    parse_variable_definition
      (codes "  " ++ (codes "CC" ++ (codes " " ++ (codes "::=" ++ codes " gcc"))))
    ≡ some (
        some (record {
          name = codes "CC";
          flavor = f_simple;
          value = next_token (codes " gcc");
          after = codes " gcc";
        }))
unfolding is_space is_blank
parse_variable_definition-print_example =
    parse_variable_definition-print (codes "  ") b'C' (codes "C") (codes " ") f_simple (codes "::=")
      (codes " gcc") (refl, (refl, tt)) (refl, (refl, tt)) (refl, tt) (inr refl)
