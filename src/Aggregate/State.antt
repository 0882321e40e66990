-- ===== src/Aggregate/State.antt =====
-- `StreamFieldState` of enclave/src/main.rs: the aggregator of whichever protocol the exchange
-- speaks.
use proof_of_observation.Json.{Value, Libs}
use proof_of_observation.Json.Presence.{
  Protocol, openai_chat, openai_responses, anthropic, gemini, dashscope, bedrock, cohere,
}
use proof_of_observation.Aggregate.OpenaiChat
use proof_of_observation.Aggregate.OpenaiResponses
use proof_of_observation.Aggregate.Anthropic
use proof_of_observation.Aggregate.Gemini
use proof_of_observation.Aggregate.Dashscope
use proof_of_observation.Aggregate.Bedrock
use proof_of_observation.Aggregate.Cohere

pub data StreamState (N : Type 0) : Type 0 where
  chat_state : OpenaiChat.State N → StreamState N
  responses_state : OpenaiResponses.State N → StreamState N
  messages_state : Anthropic.State N → StreamState N
  gemini_state : Gemini.State N → StreamState N
  dashscope_state : Dashscope.State N → StreamState N
  bedrock_state : Bedrock.State N → StreamState N
  cohere_state : Cohere.State N → StreamState N

-- `new`: the seven protocols have a state each.
unfoldable pub new : {N : Type 0} → Protocol → StreamState N
new openai_chat = chat_state OpenaiChat.start
new openai_responses = responses_state OpenaiResponses.start
new anthropic = messages_state Anthropic.start
new gemini = gemini_state Gemini.start
new dashscope = dashscope_state Dashscope.start
new bedrock = bedrock_state Bedrock.start
new cohere = cohere_state Cohere.start

module _ (libs : Libs) where
  unfoldable pub apply : StreamState libs.Number → Value libs.Number → StreamState libs.Number
  apply (chat_state s) event = chat_state (OpenaiChat.apply libs s event)
  apply (responses_state s) event = responses_state (OpenaiResponses.apply libs s event)
  apply (messages_state s) event = messages_state (Anthropic.apply libs s event)
  apply (gemini_state s) event = gemini_state (Gemini.apply libs s event)
  apply (dashscope_state s) event = dashscope_state (Dashscope.apply libs s event)
  apply (bedrock_state s) event = bedrock_state (Bedrock.apply libs s event)
  apply (cohere_state s) event = cohere_state (Cohere.apply libs s event)

  unfoldable pub finish : StreamState libs.Number → Value libs.Number
  finish (chat_state s) = OpenaiChat.finish libs s
  finish (responses_state s) = OpenaiResponses.finish libs s
  finish (messages_state s) = Anthropic.finish libs s
  finish (gemini_state s) = Gemini.finish libs s
  finish (dashscope_state s) = Dashscope.finish libs s
  finish (bedrock_state s) = Bedrock.finish libs s
  finish (cohere_state s) = Cohere.finish libs s
