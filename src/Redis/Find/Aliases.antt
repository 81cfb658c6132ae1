-- ===== src/Redis/Find/Aliases.antt =====
-- level2_service/queue.py: `resolve_task_id` of the two stores.
use tonghuashun.Base.{
  ℕ, zero, suc, ◌≡◌, refl, String, false, some, List, [], ◌==◌, length, Option-cases, inl, inr, ◌∷◌,
}
use tonghuashun.Dict.{Dict, get}
use tonghuashun.Queue.{Streams}
use tonghuashun.Queue.Position
use tonghuashun.Queue.Position.{follow}
use tonghuashun.Redis.{RedisStore}
use tonghuashun.Redis.Find.{follow_alias, resolve_task_id}

follow_alias-follow :
    (fuel : ℕ) (aliases : Dict String) (visited : List String) (id : String)
    → ((k t : String) → get k aliases ≡ some t → (t == "") ≡ false)
    → follow_alias fuel aliases visited id ≡ follow fuel aliases visited id
unfolding follow_alias follow
follow_alias-follow zero aliases visited id h = refl
follow_alias-follow (suc fuel) aliases visited id h = elim (Option-cases (get id aliases)) [
  | inl e ↦ rw (follow_alias, follow, e) refl
  | inr (t, e) ↦
      rw (follow_alias, follow, e, h id t e, follow_alias-follow fuel aliases (id ∷ visited) t h)
        refl
]

-- With the same aliases, of which none leads to the empty text, the two stores resolve every id to
-- the same id.
pub resolve_task_id_agrees :
    (id : String) (m : Streams) (s : RedisStore)
    → s.aliases ≡ m.aliases
    → ((k t : String) → get k m.aliases ≡ some t → (t == "") ≡ false)
    → resolve_task_id id s ≡ Position.resolve_task_id id m
unfolding resolve_task_id Position.resolve_task_id
resolve_task_id_agrees id m s e h =
    rw e (follow_alias-follow (suc (length m.aliases)) m.aliases [] id h)
