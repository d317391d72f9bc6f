-- ===== src/Tests/Lists.antt =====
-- The list functions of src/function.c on short texts.
use make.Function.Lists.{func_join}
use make.Function.Join.{zip_words, join-words}
use make.Text.Emit.{unwords}
use make.Text.Words.{words}
use make.Text.{Text, codes}
use make.Prelude.{◌≡◌, [], ◌++◌}

abbrev names : Text
names = codes " src/foo.c  bar.o "

abbrev path : Text
path = codes "src/foo.c"

join-words_example :
    func_join [] names (codes "1 2 3")
    ≡ [] ++ unwords (zip_words (words names) (words (codes "1 2 3")))
join-words_example = join-words [] names (codes "1 2 3")
