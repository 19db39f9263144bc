-- ===== src/Domain.antt =====
-- internal/domain/config: runs and tasks. SHA-256 is not modelled: `digest` is the text that
-- `hex.EncodeToString(sum[:16])` gives for the bytes it is handed.
use project_arachne.Prelude.{ℕ, ◌≡◌, ◌∷◌, ◌++◌, Bool, false, Option, arith, if◌then◌else◌, Text}
use project_arachne.Strings.{is_empty}

pub record ExtraTaskFlags : Type 0 where
  pub should_screenshot : Bool
  pub parse_rendered_html : Bool

pub record Run : Type 0 where
  pub id : Text
  pub use_cache_flag : Bool
  pub max_depth : ℕ
  pub max_links : ℕ
  pub extra_flags : Option ExtraTaskFlags
  pub start_url : Text

-- The field `ack` is the flag `has_ack`: the callback is there and has not been called.
pub record Task : Type 0 where
  pub id : Text
  pub url : Text
  pub current_depth : ℕ
  pub run : Run
  pub has_ack : Bool

unfoldable pub task_id : (Text → Text) → Text → Text → Text
task_id digest run url = digest (run ++ 0 ∷ url)

unfoldable pub ensure_id : (Text → Text) → Task → Task
ensure_id digest t = if is_empty t.id then record t { id = task_id digest t.run.id t.url } else t

-- The task behind the call, and how often the queue's callback was called.
unfoldable pub ack : Task → Task × ℕ
ack t = if t.has_ack then (record t { has_ack = false }, 1) else (t, 0)

-- A task is acknowledged at most once: a second `Ack` does nothing.
ack_twice : (t : Task) → (ack (ack t).0).1 ≡ 0
unfolding ack
ack_twice t = ground arith
