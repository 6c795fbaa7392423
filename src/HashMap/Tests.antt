-- ===== src/HashMap/Tests.antt =====
-- src/jml_value.c: the map of a few keys.
use mathlib.Core.Option.{some-injective}
use mathlib.Core.Path.{subst}
use jml.Base.{
  ℕ, ◌≡◌, refl, sym, ◌∙◌, Bool, true, false, [], ◌∷◌, Option, some, none, ◌==◌, if◌then◌else◌,
  arith,
}
use jml.Value.{Value, is_none, num_val}
use jml.HashMap.Mask.{power}
use jml.HashMap.Table.{
  Strings, HashMap, init, entry, empty_entry, tombstone, find_entry, probe, store, make_room,
  adjust_capacity, remove_white, rehash, grow_capacity, get, set_key, pop, add,
}
use jml.HashMap.Lookup.{lookup, is_absent}
use jml.HashMap.Laws.{IsValid}
use jml.HashMap.Grow.{Resized, adjust_capacity-Resized}
use jml.HashMap.Methods.{init-IsValid, Does, set_key-Does, get-set_key, pop-Does}
use jml.HashMap.White.{Whitened, remove_white-Whitened}
use jml.Lexer.Identifier.{mem_eq}
use jml.HashMap.Content.{find, find_loop, Finds, find-Finds}
use jml.HashMap.Bulk.{Adds, add_maps}

-- Keys 1 and 9 have the same home slot in a table of eight.
abbrev keys : Strings
keys = record { hash = λ k. k; chars = λ k. []; marked = λ k. false }

abbrev one_word : HashMap
one_word = record {
  count = 1;
  slots = 8;
  entries =
      empty_entry
      ∷ entry 1 (num_val 5)
      ∷ empty_entry
      ∷ empty_entry
      ∷ empty_entry
      ∷ empty_entry
      ∷ empty_entry
      ∷ empty_entry
      ∷ [];
}

abbrev two_words : HashMap
two_words = record {
  count = 2;
  slots = 8;
  entries =
      empty_entry
      ∷ entry 1 (num_val 5)
      ∷ entry 9 (num_val 6)
      ∷ empty_entry
      ∷ empty_entry
      ∷ empty_entry
      ∷ empty_entry
      ∷ empty_entry
      ∷ [];
}

one_word_run : set_key keys init 1 (num_val 5) ≡ some (true, one_word)
unfolding set_key make_room adjust_capacity rehash grow_capacity store find_entry probe init is_none
one_word_run = refl

two_words_run : set_key keys one_word 9 (num_val 6) ≡ some (true, two_words)
unfolding set_key make_room store find_entry probe is_none
two_words_run = refl

one_word-IsValid : IsValid keys one_word
one_word-IsValid =
    let (r, run, does) = set_key-Does keys (init-IsValid keys).0 1 (num_val 5) in
    subst (λ (x : Bool × HashMap). IsValid keys x.1) (some-injective _ _ (sym run ∙ one_word_run))
      does.valid

two_words-IsValid : IsValid keys two_words
two_words-IsValid =
    let (r, run, does) = set_key-Does keys one_word-IsValid 9 (num_val 6) in
    subst (λ (x : Bool × HashMap). IsValid keys x.1) (some-injective _ _ (sym run ∙ two_words_run))
      does.valid

popped :
    pop keys two_words 1
    ≡ some (
      some (num_val 5),
      record {
        count = 2;
        slots = 8;
        entries =
            empty_entry
            ∷ tombstone
            ∷ entry 9 (num_val 6)
            ∷ empty_entry
            ∷ empty_entry
            ∷ empty_entry
            ∷ empty_entry
            ∷ empty_entry
            ∷ [];
      },
    )
unfolding pop find_entry probe
popped = refl

set_key-Does_example :
    (r : Bool × HashMap) × (set_key keys two_words 9 (num_val 7) ≡ some r)
    × Does keys two_words 9 (some (num_val 7)) (is_absent (lookup two_words.entries 9)) r
set_key-Does_example = set_key-Does keys two_words-IsValid 9 (num_val 7)

get-set_key_example :
    (r : Bool × HashMap) × (set_key keys two_words 9 (num_val 7) ≡ some r)
    × (get keys r.1 1 ≡ (if 9 == 1 then some (some (num_val 7)) else get keys two_words 1))
get-set_key_example = get-set_key keys two_words-IsValid 9 1 (num_val 7)

pop-Does_example :
    (r : Option Value × HashMap) × (pop keys two_words 9 ≡ some r)
    × Does keys two_words 9 none (lookup two_words.entries 9) r
pop-Does_example = pop-Does keys two_words-IsValid 9

adjust_capacity-Resized_example :
    (r : HashMap) × (adjust_capacity keys two_words 16 ≡ some r) × Resized keys two_words 16 r
adjust_capacity-Resized_example =
    adjust_capacity-Resized keys 16 two_words-IsValid.table (power 16 4 refl) (omega arith)

add_maps_example :
    (r : HashMap) × (add keys two_words.entries one_word ≡ some r)
    × Adds keys two_words.entries one_word r
add_maps_example = add_maps keys two_words-IsValid one_word-IsValid

-- Key 1 is marked, key 9 is not.
abbrev marked_keys : Strings
marked_keys = record { hash = λ k. k; chars = λ k. []; marked = λ k. k == 1 }

one_word_marked : set_key marked_keys init 1 (num_val 5) ≡ some (true, one_word)
unfolding set_key make_room adjust_capacity rehash grow_capacity store find_entry probe init is_none
one_word_marked = refl

two_words_marked : set_key marked_keys one_word 9 (num_val 6) ≡ some (true, two_words)
unfolding set_key make_room store find_entry probe is_none
two_words_marked = refl

marked_two_words-IsValid : IsValid marked_keys two_words
marked_two_words-IsValid =
    let (r, run, does) = set_key-Does marked_keys (init-IsValid marked_keys).0 1 (num_val 5) in
    let one =
      subst (λ (x : Bool × HashMap). IsValid marked_keys x.1)
        (some-injective _ _ (sym run ∙ one_word_marked)) does.valid in
    let (r', run', does') = set_key-Does marked_keys one 9 (num_val 6) in
    subst (λ (x : Bool × HashMap). IsValid marked_keys x.1)
      (some-injective _ _ (sym run' ∙ two_words_marked)) does'.valid

remove_white-Whitened_example :
    (r : HashMap) × (remove_white marked_keys 8 0 two_words ≡ some r)
    × Whitened marked_keys two_words r
remove_white-Whitened_example = remove_white-Whitened marked_keys marked_two_words-IsValid

abbrev named_keys : Strings
named_keys = record { hash = λ k. k; chars = λ k. k ∷ []; marked = λ k. false }

named_word_run : set_key named_keys init 1 (num_val 5) ≡ some (true, one_word)
unfolding set_key make_room adjust_capacity rehash grow_capacity store find_entry probe init is_none
named_word_run = refl

named_word-IsValid : IsValid named_keys one_word
named_word-IsValid =
    let (r, run, does) = set_key-Does named_keys (init-IsValid named_keys).0 1 (num_val 5) in
    subst (λ (x : Bool × HashMap). IsValid named_keys x.1)
      (some-injective _ _ (sym run ∙ named_word_run)) does.valid

found_word : find named_keys one_word (1 ∷ []) 1 ≡ some (some 1)
unfolding find find_loop mem_eq
found_word = refl

find-Finds_example :
    (r : Option ℕ) × (find named_keys one_word (1 ∷ []) 1 ≡ some r)
    × Finds named_keys (1 ∷ []) 1 one_word.entries r
find-Finds_example = find-Finds named_keys (1 ∷ []) 1 named_word-IsValid
