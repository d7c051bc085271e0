-- ===== src/Memories/Service/Updating.antt =====
-- What an update writes is read back, and it touches no other memory.
use mathlib.Core.Path.{subst}
use text.Mathlib.Text.{◌==◌ as str_eq}
use campus_agent.Base.{
  ℕ, ◌≡◌, refl, sym, ◌∙◌, true, false, Option, none, some, String, ◌==◌, arith, inl, inr,
  Option-cases, Bool-cases, is_some, update_first, not, if◌then◌else◌,
}
use campus_agent.Base.Table.{find-holds, find-update_first_self, find-update_first_ne}
use campus_agent.Base.Action.{ok, Result-cases}
use campus_agent.Memories.Models.{MemoryItem, Store}
use campus_agent.Memories.Repository.{get_by_id, get_active, is_kept}
use campus_agent.Memories.Consent.{check_consent}
use campus_agent.Memories.Service.{
  UpdateMemory, MemoryRead, Config, drop_deleted, encrypt_new, read_own, read_other, parse_new,
  get_memory, memory_to_read, changed, update_memory,
}
use campus_agent.Memories.Service.Writing.{IsSound, get_memory-own}

module _ (config : Config) where
  open config use {fernet, field_encryption_key}
  open fernet use {derive_key, fernet_encrypt, fernet_decrypt}

  encrypt_new-state :
      (content : Option String) (nonce : ℕ) (s : Store) → (encrypt_new config content nonce s).1 ≡ s
  encrypt_new-state none nonce s = refl
  encrypt_new-state (some content) nonce s = ground arith

  -- What an update that succeeds has found and done.
  record Updated (user_id id : ℕ) (body : UpdateMemory) (nonce : ℕ) (s : Store) (r : MemoryRead)
      : Type 0 where
    m : MemoryItem
    token : String
    t : Option (Option ℕ)
    plaintext : String
    found : drop_deleted (get_by_id id s) ≡ some m
    own : (m.owner_user_id == user_id) ≡ true
    encrypted : (encrypt_new config body.content nonce s).0 ≡ ok token
    key : str_eq field_encryption_key "" ≡ false
    decrypted :
        fernet_decrypt
          (derive_key field_encryption_key)
          (changed config body token t m).content_encrypted
        ≡ some plaintext
    rows :
        (update_memory config user_id id body nonce s).1.memories
        ≡ update_first (λ x. x.id == id) (changed config body token t) s.memories
    consents : (update_memory config user_id id body nonce s).1.consents ≡ s.consents
    now : (update_memory config user_id id body nonce s).1.now ≡ s.now
    answer : r ≡ memory_to_read (changed config body token t m) (some plaintext)

  update_memory-effect :
      (user_id id : ℕ) (body : UpdateMemory) (nonce : ℕ) (s : Store) (r : MemoryRead)
      → (update_memory config user_id id body nonce s).0 ≡ ok r
      → Updated user_id id body nonce s r
  unfolding update_memory
  update_memory-effect user_id id body nonce s r h =
      let same = encrypt_new-state body.content nonce s in
      elim (Option-cases (drop_deleted (get_by_id id s))) [
        | inl e ↦ absurd (ground arith)
        | inr (m, e) ↦ elim (Bool-cases (m.owner_user_id == user_id)) [
          | inr not_own ↦ absurd (ground arith)
          | inl own ↦ elim (Result-cases ((encrypt_new config body.content nonce s).0)) [
            | inr (e', x) ↦ absurd (ground arith)
            | inl (token, x) ↦ elim (Option-cases (parse_new config body.expires_at)) [
              | inl p ↦ absurd (ground arith)
              | inr (t, p) ↦ elim (Bool-cases (str_eq field_encryption_key "")) [
                | inl key ↦ absurd (ground arith)
                | inr key ↦
                    elim (Option-cases (
                      fernet_decrypt (derive_key field_encryption_key)
                        (changed config body token t m).content_encrypted)) [
                          | inl d ↦ absurd (ground arith)
                          | inr (plaintext, d) ↦ record {
                            m = m;
                            token = token;
                            t = t;
                            plaintext = plaintext;
                            found = e;
                            own = own;
                            encrypted = x;
                            key = key;
                            decrypted = d;
                            rows = ground arith;
                            consents = ground arith;
                            now = ground arith;
                            answer = ground arith;
                          }
                        ]
              ]
            ]
          ]
        ]
      ]

  changed-id :
      (body : UpdateMemory) (token : String) (t : Option (Option ℕ)) (m : MemoryItem)
      → ((changed config body token t m).id ≡ m.id)
        × ((changed config body token t m).owner_user_id ≡ m.owner_user_id)
        × ((changed config body token t m).deleted_at ≡ m.deleted_at)
  changed-id body token t m = ground arith

  read_own-same :
      (user_id : ℕ) (m : MemoryItem) (purpose : Option String) (s s' : Store)
      → (read_own config user_id m purpose s').0 ≡ (read_own config user_id m purpose s).0
  read_own-same user_id m purpose s s' = elim (Bool-cases (str_eq field_encryption_key "")) [
    | inl key ↦ ground arith
    | inr key ↦
        elim (Option-cases (fernet_decrypt (derive_key field_encryption_key) m.content_encrypted)) [
          | inl d ↦ ground arith
          | inr (plaintext, d) ↦ ground arith
        ]
  ]

  read_other-same :
      (user_id : ℕ) (m : MemoryItem) (agent_id : Option ℕ) (purpose : Option String) (s s' : Store)
      → s'.consents ≡ s.consents
      → s'.now ≡ s.now
      → (read_other config user_id m agent_id purpose s').0
        ≡ (read_other config user_id m agent_id purpose s).0
  unfolding check_consent get_active
  read_other-same user_id m none purpose s s' c n = refl
  read_other-same user_id m (some agent) none s s' c n = refl
  read_other-same user_id m (some agent) (some reason) s s' c n =
      let same : check_consent config.categories m.owner_user_id agent reason none s'
          ≡ check_consent config.categories m.owner_user_id agent reason none s =
        ground arith in
      elim (Bool-cases (check_consent config.categories m.owner_user_id agent reason none s)) [
        | inl e ↦ ground arith
        | inr e ↦ ground arith
      ]

  -- Two states with this memory, the same consents and the same time give the same answer.
  get_memory-same :
      (user_id id : ℕ) (agent_id : Option ℕ) (purpose : Option String) (s s' : Store)
      → get_by_id id s' ≡ get_by_id id s
      → s'.consents ≡ s.consents
      → s'.now ≡ s.now
      → (get_memory config user_id id agent_id purpose s').0
        ≡ (get_memory config user_id id agent_id purpose s).0
  unfolding get_memory
  get_memory-same user_id id agent_id purpose s s' e c n =
      elim (Option-cases (drop_deleted (get_by_id id s))) [
        | inl x ↦ ground arith
        | inr (m, x) ↦ elim (Bool-cases (m.owner_user_id == user_id)) [
          | inl own ↦ ground (arith, read_own-same user_id m purpose s s')
          | inr not_own ↦ ground (arith, read_other-same user_id m agent_id purpose s s' c n)
        ]
      ]

  drop_deleted-some :
      (o : Option MemoryItem) (m : MemoryItem)
      → drop_deleted o ≡ some m
      → (o ≡ some m) × (is_kept m ≡ true)
  drop_deleted-some none m h = absurd (ground arith)
  drop_deleted-some (some n) m h = (ground arith, ground arith)

  -- The memory that is changed is found with its changes.
  changed-found :
      (body : UpdateMemory) (token : String) (t : Option (Option ℕ)) (id : ℕ) (m : MemoryItem)
      (s s' : Store)
      → drop_deleted (get_by_id id s) ≡ some m
      → s'.memories ≡ update_first (λ x. x.id == id) (changed config body token t) s.memories
      → drop_deleted (get_by_id id s') ≡ some (changed config body token t m)
  unfolding get_by_id
  changed-found body token t id m s s' h rows =
      let (stored, kept) = drop_deleted-some (get_by_id id s) m h in
      let (same_id, _, same_deleted) = changed-id body token t m in
      let held : (m.id == id) ≡ true = find-holds (λ x. x.id == id) s.memories {x = m} stored in
      let found : get_by_id id s' ≡ some (changed config body token t m) = rw rows (
        find-update_first_self (λ x. x.id == id) (changed config body token t) s.memories m stored
          (subst (λ z. (z == id) ≡ true) (sym same_id) held)) in
      rw found (
        subst
          (λ z.
            (if not (is_some z) then some (changed config body token t m) else none)
            ≡ some (changed config body token t m))
          (sym same_deleted) (rw kept refl))

  other-found :
      (body : UpdateMemory) (token : String) (t : Option (Option ℕ)) (id other : ℕ) (s s' : Store)
      → (other == id) ≡ false
      → s'.memories ≡ update_first (λ x. x.id == id) (changed config body token t) s.memories
      → get_by_id other s' ≡ get_by_id other s
  unfolding get_by_id
  other-found body token t id other s s' ne rows = rw rows (
      find-update_first_ne (λ x. x.id == other) (λ x. x.id == id) (changed config body token t)
        s.memories (λ x h. ground arith)
        (λ x h. let (same_id, _, _) = changed-id body token t x in ground arith))

  changed-content :
      (body : UpdateMemory) (content token : String) (t : Option (Option ℕ)) (m : MemoryItem)
      → body.content ≡ some content
      → (changed config body token t m).content_encrypted ≡ token
  changed-content body content token t m e = ground arith

  encrypted-new :
      (content : String) (given : Option String) (nonce : ℕ) (s : Store) (token : String)
      → given ≡ some content
      → str_eq field_encryption_key "" ≡ false
      → (encrypt_new config given nonce s).0 ≡ ok token
      → fernet_encrypt (derive_key field_encryption_key) nonce content ≡ some token
  encrypted-new content given nonce s token e key h =
      elim (Option-cases (fernet_encrypt (derive_key field_encryption_key) nonce content)) [
        | inl x ↦ absurd (ground arith)
        | inr (c, x) ↦ ground arith
      ]

  -- An update that gives a new content and succeeds: the owner reads at any later time what it
  -- answered, with the new content, and every reading of another memory, by anyone, is as before.
  pub update_memory-roundtrip :
      (sound : IsSound fernet) (user_id id : ℕ) (body : UpdateMemory) (nonce : ℕ) (s : Store)
      (r : MemoryRead) (content : String) (later : ℕ) (reason : Option String) (reader other : ℕ)
      (agent_id : Option ℕ) (purpose : Option String)
      → body.content ≡ some content
      → (update_memory config user_id id body nonce s).0 ≡ ok r
      → (other == id) ≡ false
      → let s' : Store = (update_memory config user_id id body nonce s).1 in
        (r.content ≡ some content)
        × ((get_memory config user_id id none reason (record s' { now = later })).0 ≡ ok r)
        × ((get_memory config reader other agent_id purpose s').0
            ≡ (get_memory config reader other agent_id purpose s).0)
  update_memory-roundtrip sound user_id id body nonce s r content later reason reader other agent_id
        purpose e h ne =
      let u = update_memory-effect user_id id body nonce s r h in
      let s' : Store = (update_memory config user_id id body nonce s).1 in
      let m' = changed config body u.token u.t u.m in
      let opened : fernet_decrypt (derive_key field_encryption_key) u.token ≡ some content =
        sound (derive_key field_encryption_key) nonce content u.token
          (encrypted-new content body.content nonce s u.token e u.key u.encrypted) in
      let given : m'.content_encrypted ≡ u.token = changed-content body content u.token u.t u.m e in
      let text : some u.plaintext ≡ some content = sym u.decrypted ∙ rw given opened in
      let (_, same_owner, _) = changed-id body u.token u.t u.m in
      (
        rw u.answer text,
        rw u.answer (
            get_memory-own config sound user_id id reason (record s' { now = later }) m' u.plaintext
              u.key
              (changed-found body u.token u.t id u.m s (record s' { now = later }) u.found u.rows)
              (subst (λ z. (z == user_id) ≡ true) (sym same_owner) u.own) u.decrypted),
        get_memory-same reader other agent_id purpose s s'
            (other-found body u.token u.t id other s s' ne u.rows) u.consents u.now,
      )
