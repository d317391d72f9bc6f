-- ===== src/Lib.antt =====
-- GNU make: models of parts of its C sources, with the theorems that make them correct.
--
-- Paths are from the root of the repository. Memory is a value: a C string is the list of its bytes
-- without the terminating NUL, a pointer into it the rest of the list from there, the variable buffer
-- the text written so far. Machine words are natural numbers with the wrap-around written out.
--
-- * src/hash.c, src/hash.h, the hash tables of every other part: `Hash` has the slots, the record
--   and one function per C function; the modules below it prove, bottom up, that the double hashing
--   walk covers every slot (Cover), what a chain of slots and a scan of it are (Chain, Scan),
--   counting of items and of empty slots (Count), the layout that makes a search right (Layout),
--   searching (Find), rehashing (Stores, Rehash, Valid), insertion (Target, Insert), deletion
--   (Delete), and what a sequence of calls answers (Laws). A client's hash and comparison functions
--   are the instance argument `KeyFuncs`. The probe loop has `ht_size` rounds of fuel, enough as the
--   walk covers the table. `IsValid` asks for at least 16 slots: below, `size / 16` is 0 and the
--   table never grows.
-- * src/misc.c `next_token`, `end_of_token`, `find_next_token`, src/main.c
--   `initialize_stopchar_map`: `Text`; `Text/Words` says what the words of a text are, `Text/Emit`
--   what the loops that write words and take the last space back produce. Loops over tokens have one
--   round per byte and one more.
-- * src/function.c, text functions: `Function/Lists`, `Function/Join`, `Function/Files`,
--   `Function/Select`, `Function/Subst` (`subst_expand` has one round of fuel more than bytes,
--   enough for a non-empty string to replace), `Function/Pattern`, `Function/Patsubst` (and
--   `Stem`), and `Function/Logic` for `if`, `or` and `and`, where `expand_argument` is a parameter
--   that may change a state. `Function/Foreach` and `Function/Let` (with `Trimmed`) run in the
--   scopes of `Variable`. Expansion is a parameter that may change the `shared` sets, the global
--   one or those of targets, and make new lists; that `initialize_file_variables` links a list in
--   use anew is left out. They are called by `expand_builtin_function`, which is not modelled; the
--   other functions get expanded arguments.
-- * src/read.c `conditional_line`: `Read/Conditional` is the transition on the stack of
--   conditionals, `Operands` cuts the operands out of the line, `Laws`, `Depth` and `Branch` are its
--   theorems. Variable expansion and lookup are the parameters of `Env`. The recursive call after
--   `else` never reaches `else` or `endif` again, so it is the function for the four `if` directives.
-- * src/read.c `find_char_unquote`: `Read/Unquote`, which gives the compacted string in two parts;
--   `Quote` is about quoting undone.
-- * src/shuffle.c, `make_seed` and `make_rand` of src/misc.c: `Shuffle`; `Order` is about the
--   arrays, `Deps` about one list of prerequisites, `Marks` and `Visit` about the walk over the
--   files, which has one round of fuel more than there are files; a `struct file` is its place in the
--   store. The clock and process number that seed an unseeded generator are the parameter `entropy`,
--   one reading.
-- * src/rule.c, the chain of pattern rules: `Rule`, where a rule is known by its address; `Chain`
--   is the chain as pointers, `Install` the replacement of a duplicate, `Targets` the two ways to
--   make a rule.
-- * src/commands.c `chop_commands`: `Commands`; `Lines` is about the cuts, `Flags` about a line's
--   flags. The loop over lines has one round per byte and one more.
-- * src/variable.c, variables and scopes: `Variable` has variables and sets of them (the hash table
--   of a set stands as the list of its variables, one for each name), `Sets` and `Strongest` are
--   about sets; `Scopes` has the store of sets and of lists of sets, `Restore`, `Pushed` and
--   `Balance` are about pushing and popping scopes, `Lookup` about `lookup_variable`, whose fuel is
--   the length of the list of sets and whose `lookup_special_var` is a parameter. `Parse` is
--   `parse_variable_definition`, one round of its loop a value of `Round`, with one round of fuel
--   more than bytes; `Passed`, `Rounds`, `Split` and `Print` are its theorems. The code for VMS is
--   left out.
-- * src/strcache.c, interned strings: `Strcache`, with the memory of the buffers as a store of
--   bytes; `Read` is about strings in it, `Blocks` and `Add` about the buffers, `Find` about the hash
--   table and `Intern` about what the cache promises. `strcache_print_stats` is left out.
-- * src/remake.c, with `struct file` of src/filedef.h and `set_command_state` of src/file.c:
--   `Remake` has the record of a file and a store of them, `Remake/Finish` is
--   `notice_finished_file`, `touch_file` and `remake_file`, `Remake/Decide` the last part of
--   `update_file_1`, which decides whether to remake a file. `Same`, `Settled`, `Entries`,
--   `Outcome` and `Needs` are about these. `Remake/Walk` has the loops over the prerequisites and
--   `Walk/Calls` `update_file`, `update_file_1` and `check_dep`, which call one another on fuel;
--   `Graph`, `Kept`, `Loops`, `Calling`, `Checking` and `Ends` are about its end, for which 3 n + 3
--   rounds are enough where no one of the n files is intermediate. The times that the system tells
--   and whether touching succeeds are the parameter `System`, `try_implicit_rule` and
--   `execute_file_commands` those of `Pass`. Archives, VPATH, second expansion, default recipes,
--   low-resolution times, --shuffle, the remaking of makefiles, the prerequisites of `also_make`
--   peers in the walk, and what only decides messages are left out.
-- * src/job.c, the job control: `Jobs` has the children and the search for the next command,
--   `Jobs/Start` the starting of jobs and the way to a slot or a token, `Jobs/Reap` a round of
--   `reap_children`, `Jobs/Wait` the loops that wait, on fuel. A line of a recipe stands as its
--   commands. What other makes take out of the jobserver and put back are steps of a run.
--   `Balance`, `Chain` and `Safe` are about slots and tokens in any run, `Limit` and `Full` about
--   the limit of -j, `Work`, `Shrink` and `Progress` about the end of waiting, for which the number
--   of children and commands left is fuel enough. It uses `Remake` for the files of the jobs.
--
-- Not modelled: `update_goal_chain` of src/remake.c; signals, output and memory profiles of
-- src/job.c; the rest of src/file.c; what only touches files or the system (src/dir.c, src/ar.c,
-- src/arscan.c, src/output.c, src/posixos.c), expansion (src/expand.c), the rest of src/variable.c,
-- src/read.c, src/function.c and src/main.c, the search of an implicit rule (src/implicit.c) and
-- suffix rules (src/rule.c), ports to other systems and copied libraries (lib/, src/getopt.c). Of
-- src/hash.c, `hash_free`, `hash_print_stats` and the string hash functions are left out.
pub mod Prelude
pub mod Bits
pub mod Hash
pub mod Text
pub mod Function
pub mod Remake
pub mod Jobs
pub mod Read
pub mod Shuffle
pub mod Rule
pub mod Commands
mod Tests
pub mod Variable
pub mod Strcache
