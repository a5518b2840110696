-- ===== src/Credtype/Tests.antt =====
-- Runs of the credential types, and the theorem at a concrete input.
use eudi_dev.Base.{
  Text, codes, text_eq, contains, is_empty, true, false, none, some, [], ◌∷◌, ◌||◌, ◌&&◌, ◌≡◌, refl,
}
use eudi_dev.Credtype.{
  pid_vct, cut_prefix, before, is_number, extends, add_type, add_types, add_parent, add_base_types,
  chain, answers,
}
use eudi_dev.Credtype.Laws.{some_extends, answers_iff}

types : Unit {0}
unfolding text_eq contains cut_prefix before is_number extends add_type add_types add_parent
    add_base_types chain answers
types = tt

abbrev german_pid : Text
german_pid = codes "urn:eudi:pid:de:1"

-- A domestic PID answers for the base type, and the base type for no domestic one.
domestic_tests :
    (extends german_pid ≡ some pid_vct)
    × (answers german_pid [] pid_vct ≡ some true)
    × (answers pid_vct [] german_pid ≡ some false)
    × (extends (codes "urn:eudi:pid:1") ≡ none)
unfolding types
domestic_tests = (refl, refl, refl, refl)

has_type : is_empty german_pid ≡ false
has_type = refl

asks_type : is_empty pid_vct ≡ false
asks_type = refl

answers_iff_example :
    answers german_pid [] pid_vct
    ≡ some (
        contains (german_pid ∷ []) pid_vct
        || (text_eq pid_vct pid_vct && some_extends (german_pid ∷ [])))
answers_iff_example = answers_iff german_pid [] pid_vct has_type asks_type
