-- ===== src/Memories/Tests.antt =====
-- A student with two memories and an agent, and what the theorems on memories say of them.
use campus_agent.Base.{
  ℕ, ◌+◌, ◌≡◌, refl, sym, true, false, Option, none, some, [], ◌∷◌, String, arith, count_if, find,
  select,
}
use campus_agent.Base.Action.{ok, err}
use campus_agent.Memories.Models.{
  MemoryItem, ConsentRecord, granted, memory_permission_denied, Store,
}
use campus_agent.Memories.Repository.{get_by_id, get_active, get_consent, revoke}
use campus_agent.Memories.Encryption.{Fernet}
use campus_agent.Memories.Consent.{Json, check_consent, grant_consent, revoke_consent}
use campus_agent.Memories.Consent.Reachable.{
  ConsentRequest, grant, serve, HasOneConsent, count_active, Reachable, revoke_consent-immediate,
}
use campus_agent.Memories.Service.{
  CreateMemory, UpdateMemory, MemoryRead, Config, memory_to_read, create_memory, get_memory,
  update_memory,
}
use campus_agent.Memories.Service.Reading.{get_memory-owner_only}
use campus_agent.Memories.Service.Writing.{IsSound, create_memory-roundtrip}
use campus_agent.Memories.Service.Updating.{update_memory-roundtrip}
use campus_agent.Memories.Cleanup.Repeated.{
  count_expired, repeat_cleanup, is_live, repeat_cleanup-finishes,
}

abbrev fernet : Fernet
fernet = record {
  derive_key = λ key. key;
  fernet_encrypt = λ _ _ plaintext. some plaintext;
  fernet_decrypt = λ _ token. some token;
  sha256 = λ plaintext. plaintext;
}

fernet-IsSound : IsSound fernet
fernet-IsSound key nonce plaintext token e = sym e

abbrev config : Config
config = record {
  fernet = fernet;
  field_encryption_key = "key";
  fromisoformat = λ _. some 500;
  categories = λ _. none;
}

abbrev json : Json String
json = record { is_truthy = λ _. true; dumps = λ v. v; loads = λ v. v }

abbrev memory : ℕ → Option ℕ → MemoryItem
memory id expires_at = record {
  id = id;
  owner_user_id = 1;
  agent_id = none;
  category = "FACT";
  sensitivity_level = "INTERNAL";
  source = "USER_INPUT";
  content_encrypted = "allergic to nuts";
  content_hash = "h";
  encryption_key_version = 1;
  expires_at = expires_at;
  deleted_at = none;
  created_at = 10;
}

abbrev consent : ConsentRecord
consent = record {
  id = 40;
  grantor_user_id = 1;
  grantee_agent_id = 9;
  purpose = "chat_reply";
  scope_json = none;
  status = granted;
  granted_at = 100;
  expires_at = none;
  revoked_at = none;
  memory_id = none;
  created_at = 100;
}

abbrev tables : Store
tables = record {
  memories = memory 20 none ∷ memory 21 (some 50) ∷ [];
  consents = [];
  audits = [];
  pending_audits = [];
  now = 100;
}

abbrev with_consent : Store
with_consent = record tables { consents = consent ∷ [] }

get_memory-owner_only_example :
    ((memory_to_read (memory 20 none) none).content ≡ none)
    × (agent : ℕ) × (reason : String) × (some 9 ≡ some agent)
    × (some "chat_reply" ≡ some reason)
    × (check_consent config.categories 1 agent reason none with_consent ≡ true)
unfolding get_memory get_by_id find check_consent get_active
get_memory-owner_only_example =
    get_memory-owner_only config 2 20 (some 9) (some "chat_reply") with_consent
      (memory_to_read (memory 20 none) none) refl refl

abbrev body : CreateMemory
body = record {
  content = "likes tea";
  agent_id = none;
  category = "PREFERENCE";
  sensitivity_level = none;
  source = none;
  expires_at = none;
}

create_memory-roundtrip_example :
    let s' : Store = record (create_memory config 1 body 22 3 tables).1 { now = 300 } in
    (m : MemoryItem) × (r : MemoryRead) × (get_by_id 22 s' ≡ some m)
    × (m.content_encrypted ≡ "likes tea")
    × (r.content ≡ some "likes tea")
    × ((create_memory config 1 body 22 3 tables).0 ≡ ok r)
    × ((get_memory config 1 22 none none s').0 ≡ ok r)
    × ((get_memory config 2 22 none none s').0 ≡ err memory_permission_denied)
unfolding get_by_id find
create_memory-roundtrip_example =
    create_memory-roundtrip config fernet-IsSound 1 22 3 body tables "likes tea" none 300 2 none
      refl refl refl refl refl

abbrev change : UpdateMemory
change = record {
  content = some "no nuts";
  category = none;
  sensitivity_level = none;
  expires_at = some (some "2026-01-01");
}

abbrev changed_read : MemoryRead
changed_read =
    memory_to_read (record (memory 20 (some 500)) { content_hash = "no nuts" }) (some "no nuts")

update_memory-roundtrip_example :
    let s' : Store = (update_memory config 1 20 change 4 tables).1 in
    (changed_read.content ≡ some "no nuts")
    × ((get_memory config 1 20 none none (record s' { now = 300 })).0 ≡ ok changed_read)
    × ((get_memory config 1 21 none none s').0 ≡ (get_memory config 1 21 none none tables).0)
unfolding update_memory get_by_id find
update_memory-roundtrip_example =
    update_memory-roundtrip config fernet-IsSound 1 20 change 4 tables changed_read "no nuts" 300
      none 1 21 none none refl refl refl

abbrev granting : ConsentRequest String
granting = grant 1 9 "chat_reply" none none none 40

path : Reachable json tables (serve json granting tables)
path = Reachable.step granting Reachable.here

no_consent : HasOneConsent tables
unfolding count_active count_if
no_consent g a p = omega arith

revoke_consent-immediate_example :
    let s' : Store = (revoke_consent 1 40 (serve json granting tables)).1 in
    check_consent config.categories 1 9 "chat_reply" (some "FACT") (record s' { now = s'.now + 5 })
    ≡ false
unfolding serve grant_consent get_active find revoke_consent get_consent revoke
revoke_consent-immediate_example =
    revoke_consent-immediate json 1 40 consent config.categories (some "FACT") 5 path no_consent
      refl refl refl

repeat_cleanup-finishes_example :
    (count_expired (repeat_cleanup 1 tables) ≡ 0)
    × (select (is_live 100) (repeat_cleanup 1 tables).memories
        ≡ select (is_live 100) tables.memories)
unfolding count_expired count_if
repeat_cleanup-finishes_example = repeat_cleanup-finishes 1 tables (omega arith)
