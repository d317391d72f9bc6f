-- ===== src/Tests/Patsubst.antt =====
-- `patsubst_expand_pat` on a short list of files.
use make.Function.Patsubst.{
  percent, prefix_matches, suffix_matches, word_matches, replacement, spaced_out, write_word,
  patsubst_expand_pat, substituted, patsubst_expand_pat-words,
}
use make.Function.Stem.{word_matches-replacement}
use make.Text.Emit.{unwords, results}
use make.Text.Words.{words}
use make.Text.{
  Text, codes, is_space, is_blank, next_token, end_of_token, token, cut_token, find_next_token,
  each_token, kill_last, drop_last,
}
use make.Prelude.{◌≡◌, refl, true, [], ◌++◌}

objects :
    patsubst_expand_pat []
      (codes " foo.c  bar.h ")
      (percent [] (codes ".c"))
      (percent [] (codes ".o"))
    ≡ codes "foo.o bar.h"
unfolding patsubst_expand_pat write_word word_matches prefix_matches suffix_matches replacement
    spaced_out is_space is_blank next_token end_of_token token cut_token find_next_token each_token
    kill_last drop_last
objects = refl

-- A word that is emptied keeps its space.
emptied :
    patsubst_expand_pat [] (codes ".c a.c") (percent [] (codes ".c")) (percent [] []) ≡ codes " a"
unfolding patsubst_expand_pat write_word word_matches prefix_matches suffix_matches replacement
    spaced_out is_space is_blank next_token end_of_token token cut_token find_next_token each_token
    kill_last drop_last
emptied = refl

patsubst_expand_pat-words_example :
    patsubst_expand_pat [] (codes ".c a.c") (percent [] (codes ".c")) (percent [] [])
    ≡ [] ++ unwords (results (substituted [] (codes ".c") (percent [] [])) (words (codes ".c a.c")))
patsubst_expand_pat-words_example =
    patsubst_expand_pat-words [] (codes ".c a.c") [] (codes ".c") (percent [] [])

c_file : word_matches (codes "f") (codes ".c") (codes "foo.c") ≡ true
unfolding word_matches prefix_matches suffix_matches
c_file = refl

word_matches-replacement_example :
    (stem : Text) × (codes "foo.c" ≡ codes "f" ++ (stem ++ codes ".c"))
    × (replacement (percent (codes "x") (codes ".o")) (codes "f") (codes ".c") (codes "foo.c")
        ≡ (codes "x" ++ stem) ++ codes ".o")
word_matches-replacement_example =
    word_matches-replacement (codes "f") (codes ".c") (codes "x") (codes ".o") (codes "foo.c")
      c_file
