-- ===== src/Chatbot/Choice.antt =====
-- A contact enters the number that the menu shows before an option.
use Prim.Native.Nat.{suc, ◌+◌}
use chat_intelli_api.Base.{
  ℕ, String, false, some, List, [], ◌∷◌, ◌++◌, ◌≡◌, ◌∙◌, ap, refl, arith, is_empty, length,
}
use chat_intelli_api.Base.Texts.{trim}
use chat_intelli_api.Base.Exec.{ok}
use chat_intelli_api.Json.{concat}
use chat_intelli_api.Chatbot.{MenuOption}
use chat_intelli_api.Base.Numerals.{shown_number}
use chat_intelli_api.Base.Numerals.Laws.{shown_number-Shown, parse_int-shown_number}
use chat_intelli_api.Chatbot.Nodes.{
  Language, Context, given, option_number, option_named, selected_option, first_of, choose,
  menu_for, menu_with, execute_menu, menu_lines,
}

option_number-append :
    (before after : List MenuOption) (o : MenuOption)
    → option_number (suc (length before)) (before ++ o ∷ after) ≡ some o
unfolding option_number
option_number-append [] after o = refl
option_number-append (b ∷ before) after o = option_number-append before after o

abbrev menu_line : ℕ → MenuOption → String
menu_line i o = concat ("\n" ∷ shown_number i ∷ ". " ∷ o.label ∷ [])

menu_lines-append :
    (i j : ℕ) (before after : List MenuOption) (o : MenuOption)
    → i + length before ≡ j
    → menu_lines i (before ++ o ∷ after)
      ≡ menu_lines i before ++ menu_line j o ∷ menu_lines (j + 1) after
menu_lines-append i j [] after o e =
    let same : i ≡ j = omega arith in ap (λ k. menu_line k o ∷ menu_lines (k + 1) after) same
menu_lines-append i j (b ∷ before) after o e =
    ap (λ lines. menu_line i b ∷ lines)
      (menu_lines-append (i + 1) j before after o (omega (arith, e)))

given-some : (s : String) → is_empty s ≡ false → given (some s) ≡ some s
given-some s filled = ground arith

-- A contact who answers a menu with the number that the menu shows before an option chooses that
-- option, whatever the options are called.
pub execute_menu-shown_number :
    (language : Language) (ctx : Context) (before after : List MenuOption) (o : MenuOption)
    → ctx.node.content.options ≡ some (before ++ o ∷ after)
    → ctx.incoming_message ≡ some (shown_number (suc (length before)))
    → (menu_lines 1 (before ++ o ∷ after)
        ≡ menu_lines 1 before
          ++ concat ("\n" ∷ shown_number (suc (length before)) ∷ ". " ∷ o.label ∷ [])
            ∷ menu_lines (suc (length before) + 1) after)
      × (execute_menu language ctx ≡ ok (choose (some o) ctx.node.edges))
unfolding execute_menu menu_with menu_for selected_option
execute_menu-shown_number language ctx before after o has input =
    let number = suc (length before) in
    let options = before ++ o ∷ after in
    let named = option_named language (trim (shown_number number)) options in
    (
      menu_lines-append 1 number before after o (omega arith),
      ap (λ os. menu_with language os ctx) has
          ∙ ap (λ m. ok (menu_for language m options ctx))
              (ap given input ∙ given-some (shown_number number) ((shown_number-Shown number).1))
          ∙ ap (λ n. ok (choose (first_of (option_number n options) named) ctx.node.edges))
              (parse_int-shown_number number)
          ∙ ap (λ x. ok (choose (first_of x named) ctx.node.edges))
              (option_number-append before after o),
    )
