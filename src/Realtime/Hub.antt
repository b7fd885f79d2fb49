-- ===== src/Realtime/Hub.antt =====
-- internal/realtime/hub.go: the hub. A subscription is named by the number of its allocation. A
-- channel keeps what waits in its buffer. Go panics at a send on a closed channel and at a close of a
-- closed one, which is a state of the channel here. An operation holds the mutex from its start to its
-- end, so that a run is a list of operations.
use access_gateway.Prelude.{
  ℕ, ◌+◌, Bool, true, false, not, ◌&&◌, ◌||◌, ◌==◌, ltb, if◌then◌else◌, List, [], ◌∷◌, ◌++◌, any,
  length, Text, codes, text_eq, is_empty,
}

-- `Change`, without the schema and the permission, which the hub does not read.
pub record Change : Type 0 where
  pub topic : Text
  pub user_id : Text

pub data Channel : Type 0 where
  opened : List Change → Channel
  closed : List Change → Channel
  panicked : Channel

pub record Hub : Type 0 where
  pub available : Bool
  pub allocated : ℕ
  pub user_id : ℕ → Text
  pub events : ℕ → Channel
  pub clients : ℕ → Bool

abbrev pub update {ℓ} : {A : Type ℓ} → ℕ → A → (ℕ → A) → ℕ → A
update n a f k = if k == n then a else f k

-- `make(chan Change, 32)`
abbrev pub capacity : ℕ
capacity = 32

-- `close(s.events)`
abbrev pub close_channel : Channel → Channel
close_channel (opened es) = closed es
close_channel (closed es) = panicked
close_channel panicked = panicked

-- `s.events <- change` in the first case of the select, which is taken when the buffer has room.
abbrev pub send : Change → Channel → Channel
send c (opened es) = opened (es ++ c ∷ [])
send c (closed es) = panicked
send c panicked = panicked

-- Whether the buffer is full, so that the select takes its default. A send on a closed channel is
-- always ready.
abbrev pub is_full : Channel → Bool
is_full (opened es) = not (ltb (length es) capacity)
is_full _ = false

abbrev pub new_hub : Hub
new_hub = record {
  available = true;
  allocated = 0;
  user_id = λ _. [];
  events = λ _. closed [];
  clients = λ _. false;
}

-- `Subscribe`; the answer is whether there is a stream.
unfoldable pub subscribe : Text → Hub → Hub × Bool
subscribe user h =
    if h.available
    then (
      record h {
        allocated = h.allocated + 1;
        user_id = update h.allocated user h.user_id;
        events = update h.allocated (opened []) h.events;
        clients = update h.allocated true h.clients;
      },
      true,
    )
    else (h, false)

-- The function that `Subscribe` returns.
unfoldable pub cancel : ℕ → Hub → Hub
cancel n h =
    if h.clients n
    then record h {
      clients = update n false h.clients;
      events = update n (close_channel (h.events n)) h.events;
    }
    else h

abbrev pub topics : List Text
topics =
    codes "notifications"
    ∷ codes "requests"
    ∷ codes "sessions"
    ∷ codes "cloud"
    ∷ codes "settings"
    ∷ codes "catalog"
    ∷ codes "audit"
    ∷ codes "identity"
    ∷ []

abbrev pub is_topic : Change → Bool
is_topic c = any (text_eq c.topic) topics

-- The changes that a subscription of the user does not skip.
abbrev pub is_for : Text → Change → Bool
is_for user c = is_empty c.user_id || text_eq c.user_id user

-- The select of `Publish`, by whether the buffer is full: whether the client stays, and its channel.
abbrev pub offer : Bool → Change → Channel → Bool × Channel
offer true c ch = (false, close_channel ch)
offer false c ch = (true, send c ch)

-- The body of the loop of `Publish`, at one client.
abbrev pub deliver : Change → Bool → Channel → Bool × Channel
deliver c wanted ch = if not wanted then (true, ch) else offer (is_full ch) c ch

-- `Publish`; the loop treats each client once and apart from the others.
unfoldable pub publish : Change → Hub → Hub
publish c h =
    if is_topic c
    then record h {
      clients = λ n. h.clients n && (deliver c (is_for (h.user_id n) c) (h.events n)).0;
      events = λ n.
          if h.clients n then (deliver c (is_for (h.user_id n) c) (h.events n)).1 else h.events n;
    }
    else h

-- `setAvailable`
unfoldable pub set_available : Bool → Hub → Hub
set_available true h = record h { available = true }
set_available false h = record h {
  available = false;
  clients = λ _. false;
  events = λ n. if h.clients n then close_channel (h.events n) else h.events n;
}

-- A receive from the channel: what it gives, and the channel after it.
abbrev pub receive : Channel → List Change × Channel
receive (opened (c ∷ es)) = (c ∷ [], opened es)
receive (closed (c ∷ es)) = (c ∷ [], closed es)
receive ch = ([], ch)

pub data Operation : Type 0 where
  subscribes : Text → Operation
  cancels : ℕ → Operation
  publishes : Change → Operation
  sets : Bool → Operation
  receives : ℕ → Operation

unfoldable pub step : Operation → Hub → Hub
step (subscribes user) h = (subscribe user h).0
step (cancels n) h = cancel n h
step (publishes c) h = publish c h
step (sets b) h = set_available b h
step (receives n) h = record h { events = update n (receive (h.events n)).1 h.events }

-- What the reader of the subscription gets in the operation.
unfoldable pub received : ℕ → Operation → Hub → List Change
received n (receives m) h = if n == m then (receive (h.events m)).0 else []
received n _ h = []

unfoldable pub run : List Operation → Hub → Hub
run [] h = h
run (o ∷ os) h = run os (step o h)

unfoldable pub received_in : ℕ → List Operation → Hub → List Change
received_in n [] h = []
received_in n (o ∷ os) h = received n o h ++ received_in n os (step o h)
