-- ===== src/Prompt/Questions.antt =====
-- What the owner is asked: `publicPendingPrompt` of packages/cli/src/store.ts.
use Prim.Native.String.{String}
use agentis.Prelude.{
  ◌≡◌, refl, true, false, List, [], ◌∷◌, Option, some, arith, All, or_else, inl, inr, subst, length,
  ◌<◌, Option-cases,
}
use agentis.Json.{Json, Items, property}
use agentis.Prompt.{
  PendingQuestion, is_empty, all_nonempty, decode_question, decode_questions, question_list,
  structured_prompt, plain_question, public_pending_prompt, question_key,
}

-- The schema `PendingQuestion`: every text is non-empty.
pub record IsAskable (q : PendingQuestion) : Type 0 where
  pub has_key : is_empty q.key ≡ false
  pub has_prompt : is_empty q.prompt ≡ false
  pub has_options : all_nonempty q.options ≡ true

decode_question-IsAskable :
    (j : Json) (q : PendingQuestion) → decode_question j ≡ some q → IsAskable q
unfolding decode_question
decode_question-IsAskable j q h = elim (Option-cases (question_key j)) [
  | inl e ↦ ground arith
  | inr (key, e) ↦ ground arith
]

decode_questions-IsAskable :
    (items : Items) (qs : List PendingQuestion)
    → decode_questions items ≡ some qs
    → All IsAskable qs
unfolding decode_questions
decode_questions-IsAskable Items.nil qs h = subst (All IsAskable) {x = []} (ground arith) tt
decode_questions-IsAskable (Items.cons q rest) qs h = elim (Option-cases (decode_question q)) [
  | inl e ↦ ground arith
  | inr (d, e) ↦ elim (Option-cases (decode_questions rest)) [
    | inl e' ↦ ground arith
    | inr (ds, e') ↦
        subst (All IsAskable) {x = d ∷ ds} (ground arith)
          (decode_question-IsAskable q d e, decode_questions-IsAskable rest ds e')
  ]
]

question_list-IsAskable :
    (q : Json) (qs : List PendingQuestion)
    → question_list q ≡ some qs
    → All IsAskable qs × (0 < length qs)
unfolding question_list
question_list-IsAskable (Json.arr (Items.cons first rest)) qs h = (
  decode_questions-IsAskable (Items.cons first rest) qs h,
  elim (Option-cases (decode_question first)) [
    | inl e ↦ ground arith
    | inr (d, e) ↦ elim (Option-cases (decode_questions rest)) [
      | inl e' ↦ ground arith
      | inr (ds, e') ↦ ground arith
    ]
  ],
)
question_list-IsAskable (Json.arr Items.nil) qs h = cc
question_list-IsAskable _ qs h = cc

structured_prompt-IsAskable :
    (parse : String → Option Json) (value : String) (qs : List PendingQuestion)
    → structured_prompt parse value ≡ some qs
    → All IsAskable qs × (0 < length qs)
unfolding structured_prompt
structured_prompt-IsAskable parse value qs h = elim (Option-cases (parse value)) [
  | inl e ↦ ground arith
  | inr (j, e) ↦ elim (Option-cases (property "questions" j)) [
    | inl e' ↦ ground arith
    | inr (q, e') ↦ question_list-IsAskable q qs (ground arith)
  ]
]

fallback-IsAskable :
    (parse : String → Option Json) (value : String)
    → is_empty value ≡ false
    → let qs = or_else (structured_prompt parse value) (plain_question value ∷ []) in
      All IsAskable qs × (0 < length qs)
unfolding is_empty
fallback-IsAskable parse value h = elim (Option-cases (structured_prompt parse value)) [
  | inl e ↦ rw e ((record { has_key = refl; has_prompt = h; has_options = refl }, tt), omega arith)
  | inr (qs, e) ↦ rw e (structured_prompt-IsAskable parse value qs e)
]

-- Whatever non-empty text a provider leaves with a run that waits for input, structured or not, the owner
-- is asked at least one question, and every question has a non-empty key, prompt and options.
pub public_pending_prompt_total :
    (parse : String → Option Json) (value : String)
    → is_empty value ≡ false
    → (qs : List PendingQuestion) × (public_pending_prompt parse true (some value) ≡ some qs)
      × All IsAskable qs
      × (0 < length qs)
unfolding public_pending_prompt
public_pending_prompt_total parse value h =
    let (askable, some_asked) = fallback-IsAskable parse value h in
    (_, ground arith, askable, some_asked)
