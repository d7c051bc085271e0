-- ===== src/Conversations/Service/Frame.antt =====
-- What requests about messages leave alone: the conversations and who takes part in them.
use campus_agent.Base.{◌≡◌, refl, ◌∙◌, List, [], ◌∷◌, arith}
use campus_agent.Conversations.Models.{Store}
use campus_agent.Conversations.Service.Common.{Screen}
use campus_agent.Conversations.Service.Messages.{
  create_message, create_system_message, delete_message,
}
use campus_agent.Conversations.Service.Numbering.{
  MessageRequest, write, announce, erase, serve, replay,
}

serve-conversations :
    (screen : Screen) (r : MessageRequest) (s : Store)
    → ((serve screen r s).conversations ≡ s.conversations)
      × ((serve screen r s).participants ≡ s.participants)
unfolding serve create_message create_system_message delete_message
serve-conversations screen (write actor c body id) s = ground arith
serve-conversations screen (announce c content message_type payload id) s = ground arith
serve-conversations screen (erase actor c id) s = ground arith

pub replay-conversations :
    (screen : Screen) (requests : List MessageRequest) (s : Store)
    → ((replay screen requests s).conversations ≡ s.conversations)
      × ((replay screen requests s).participants ≡ s.participants)
unfolding replay
replay-conversations screen [] s = (refl, refl)
replay-conversations screen (r ∷ rest) s =
    let one = serve-conversations screen r s in
    let more = replay-conversations screen rest (serve screen r s) in
    (more.0 ∙ one.0, more.1 ∙ one.1)
