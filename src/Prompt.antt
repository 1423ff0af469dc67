-- ===== src/Prompt.antt =====
-- `publicPendingPrompt` of packages/cli/src/store.ts: what the owner is asked while a run waits for
-- input, with the schema `PendingPrompt` of packages/cli/src/schema.ts.
pub mod Questions
use Prim.Native.String.{String}
use text.Mathlib.Text.{◌==◌ as str_eq}
use agentis.Prelude.{
  Bool, true, false, not, ◌&&◌, List, [], ◌∷◌, Option, some, none, if◌then◌else◌, coalesce, or_else,
}
use agentis.Json.{Json, Items, property, as_text}

pub record PendingQuestion : Type 0 where
  pub key : String
  pub prompt : String
  pub options : List String

unfoldable pub is_empty : String → Bool
is_empty s = str_eq s ""

abbrev pub question_key : Json → Option String
question_key q = coalesce (as_text (property "id" q)) (as_text (property "question" q))

abbrev pub question_prompt : Json → String → String
question_prompt q key =
    or_else
      (coalesce (as_text (property "question" q))
        (coalesce (as_text (property "prompt" q)) (as_text (property "header" q))))
      key

abbrev pub option_text : Json → Option String
option_text (Json.str s) = some s
option_text (Json.obj fields) = as_text (property "label" (Json.obj fields))
option_text _ = none

-- `flatMap` over the options: those with no text are left out.
abbrev pub option_texts : Items → List String
option_texts Items.nil = []
option_texts (Items.cons o rest) = elim (option_text o) [
  | none ↦ option_texts rest
  | some s ↦ s ∷ option_texts rest
]

abbrev pub question_options : Json → List String
question_options q = elim (property "options" q) [
  | none ↦ []
  | some j ↦ elim j [ Json.arr items ↦ option_texts items | _ ↦ [] ]
]

-- Whether the schema `nonEmpty` accepts every text of a list.
abbrev pub all_nonempty : List String → Bool
all_nonempty [] = true
all_nonempty (s ∷ rest) = not (is_empty s) && all_nonempty rest

-- One question. `none` is an exception: the key is missing, or the schema refuses a text.
unfoldable pub decode_question : Json → Option PendingQuestion
unfolding is_empty
decode_question q = elim (question_key q) [
  | none ↦ none
  | some key ↦
      if not (is_empty key)
        && not (is_empty (question_prompt q key))
        && all_nonempty (question_options q)
      then some (record { key = key; prompt = question_prompt q key; options = question_options q })
      else none
]

unfoldable pub decode_questions : Items → Option (List PendingQuestion)
decode_questions Items.nil = some []
decode_questions (Items.cons q rest) = elim (decode_question q) [
  | none ↦ none
  | some d ↦ elim (decode_questions rest) [ none ↦ none | some ds ↦ some (d ∷ ds) ]
]

-- The questions of a non-empty array.
unfoldable pub question_list : Json → Option (List PendingQuestion)
unfolding decode_questions
question_list (Json.arr (Items.cons first rest)) = decode_questions (Items.cons first rest)
question_list _ = none

-- The body of the `try`: `none` also where the text holds no questions.
unfoldable pub structured_prompt : (String → Option Json) → String → Option (List PendingQuestion)
structured_prompt parse value = elim (parse value) [
  | none ↦ none
  | some j ↦ elim (property "questions" j) [ none ↦ none | some q ↦ question_list q ]
]

-- The question that stands for a text which is not structured.
abbrev pub plain_question : String → PendingQuestion
plain_question value = record { key = "response"; prompt = value; options = [] }

unfoldable pub public_pending_prompt :
    (String → Option Json) → (waiting : Bool) → Option String → Option (List PendingQuestion)
public_pending_prompt parse waiting none = none
public_pending_prompt parse waiting (some value) =
    if not waiting
    then none
    else if is_empty value
    then none
    else some (or_else (structured_prompt parse value) (plain_question value ∷ []))
