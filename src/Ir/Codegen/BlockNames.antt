-- ===== src/Ir/Codegen/BlockNames.antt =====
-- src/ir/codegen.c: the names of the blocks, in ASCII.
use o.Prelude.{[], ◌∷◌}
use o.Frontend.Types.{StrView}

abbrev pub name_entry : StrView
name_entry = 101 ∷ 110 ∷ 116 ∷ 114 ∷ 121 ∷ []

abbrev pub name_dead : StrView
name_dead = 100 ∷ 101 ∷ 97 ∷ 100 ∷ []

abbrev pub name_if_then : StrView
name_if_then = 105 ∷ 102 ∷ 46 ∷ 116 ∷ 104 ∷ 101 ∷ 110 ∷ []

abbrev pub name_if_else : StrView
name_if_else = 105 ∷ 102 ∷ 46 ∷ 101 ∷ 108 ∷ 115 ∷ 101 ∷ []

abbrev pub name_if_end : StrView
name_if_end = 105 ∷ 102 ∷ 46 ∷ 101 ∷ 110 ∷ 100 ∷ []

abbrev pub name_while_cond : StrView
name_while_cond = 119 ∷ 104 ∷ 105 ∷ 108 ∷ 101 ∷ 46 ∷ 99 ∷ 111 ∷ 110 ∷ 100 ∷ []

abbrev pub name_while_body : StrView
name_while_body = 119 ∷ 104 ∷ 105 ∷ 108 ∷ 101 ∷ 46 ∷ 98 ∷ 111 ∷ 100 ∷ 121 ∷ []

abbrev pub name_while_end : StrView
name_while_end = 119 ∷ 104 ∷ 105 ∷ 108 ∷ 101 ∷ 46 ∷ 101 ∷ 110 ∷ 100 ∷ []

abbrev pub name_for_cond : StrView
name_for_cond = 102 ∷ 111 ∷ 114 ∷ 46 ∷ 99 ∷ 111 ∷ 110 ∷ 100 ∷ []

abbrev pub name_for_body : StrView
name_for_body = 102 ∷ 111 ∷ 114 ∷ 46 ∷ 98 ∷ 111 ∷ 100 ∷ 121 ∷ []

abbrev pub name_for_post : StrView
name_for_post = 102 ∷ 111 ∷ 114 ∷ 46 ∷ 112 ∷ 111 ∷ 115 ∷ 116 ∷ []

abbrev pub name_for_end : StrView
name_for_end = 102 ∷ 111 ∷ 114 ∷ 46 ∷ 101 ∷ 110 ∷ 100 ∷ []

abbrev pub name_after_break : StrView
name_after_break = 97 ∷ 102 ∷ 116 ∷ 101 ∷ 114 ∷ 46 ∷ 98 ∷ 114 ∷ 101 ∷ 97 ∷ 107 ∷ []

abbrev pub name_after_continue : StrView
name_after_continue =
    97 ∷ 102 ∷ 116 ∷ 101 ∷ 114 ∷ 46 ∷ 99 ∷ 111 ∷ 110 ∷ 116 ∷ 105 ∷ 110 ∷ 117 ∷ 101 ∷ []
