-- ===== src/Lane/Interface.antt =====
-- The channel's calls and their laws.
use hazshield_ingest.Prelude.{ℕ, ◌≡◌, Bool, List, [], ◌∷◌, ◌++◌, if◌then◌else◌}

pub record Lane (A : Type 0) : Type 1 where
  pub Chan : Type 0
  -- the free places
  pub capacity : Chan → ℕ
  -- `send(..).await` once it returns, and `try_send`: true for `Ok`
  pub send : Chan → A → Bool × Chan
  pub try_send : Chan → A → Bool × Chan
  pub accepted : Chan → List A
  -- a message is taken exactly when the call returns `Ok`
  pub accepted-send :
      (c : Chan) (a : A)
      → accepted (send c a).1 ≡ (if (send c a).0 then accepted c ++ (a ∷ []) else accepted c)
  pub accepted-try_send :
      (c : Chan) (a : A)
      → accepted (try_send c a).1
        ≡ (if (try_send c a).0 then accepted c ++ (a ∷ []) else accepted c)
