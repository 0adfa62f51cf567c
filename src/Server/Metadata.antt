-- ===== src/Server/Metadata.antt =====
-- Sending to clients and removing them (`try_send` and `remove_client` of src/server.cpp) keep the
-- replication metadata.
use redis_lite.Common.{Bool, ℕ, ◌≡◌, sym, ◌∙◌, ap, true, false, some, Bytes, if◌then◌else◌}
use redis_lite.Server.State.{Client, Server, Env, change, append, >>=-eq-some, some-injective}
use redis_lite.Server.Send.{try_send, remove_client, answer}

module _ (env : Env) where
  info-change :
      (f : Client → Client) (c : ℕ) (s s' : Server)
      → change f c s ≡ some s'
      → s'.repl_info ≡ s.repl_info
  unfolding change
  info-change f c s s' h =
      let (client, live, done) = >>=-eq-some (s.clients c) _ h in
      ap (λ (t : Server). t.repl_info) (sym (some-injective done))

  info-remove_client :
      (c : ℕ) (s s' : Server) → remove_client c s ≡ some s' → s'.repl_info ≡ s.repl_info
  unfolding remove_client
  info-remove_client c s s' h =
      let (client, live, done) = >>=-eq-some (s.clients c) _ h in
      ap (λ (t : Server). t.repl_info) (sym (some-injective done))

  info-removed_if :
      (broken : Bool) (c : ℕ) (s s' : Server)
      → (if broken then remove_client c s else some s) ≡ some s'
      → s'.repl_info ≡ s.repl_info
  info-removed_if true c s s' h = info-remove_client c s s' h
  info-removed_if false c s s' h = ap (λ (t : Server). t.repl_info) (sym (some-injective h))

  info-try_send : (c : ℕ) (s s' : Server) → try_send env c s ≡ some s' → s'.repl_info ≡ s.repl_info
  unfolding try_send
  info-try_send c s s' h =
      let (client, live, sent) = >>=-eq-some (s.clients c) _ h in
      let (s1, changed, done) = >>=-eq-some _ _ sent in
      info-removed_if _ c s1 s' done ∙ info-change _ c _ s1 changed

  pub info-answer :
      (text : Bytes) (c : ℕ) (s s' : Server)
      → answer env text c s ≡ some s'
      → s'.repl_info ≡ s.repl_info
  unfolding answer append
  info-answer text c s s' h =
      let (s1, appended, done) = >>=-eq-some _ _ h in
      info-try_send c s1 s' done ∙ info-change _ c s s1 appended
