-- ===== src/Config/Make.antt =====
-- config.go: the writer, the summarizer and the sender, which create the directories that they use.
use failmail.Base.{
  ℕ, Bool, true, false, ◌&&◌, Option, none, some, if◌then◌else◌, Str, bytes, is_empty, eq_str,
}
use failmail.Maildir.{FileSystem, Maildir, create}
use failmail.Buffer.{Limits, Batches, new_batches}
use failmail.Upstream.{Upstream, live, debug, to_maildir, multi, first, no_more}
use failmail.Config.{Config, Result, ok, err, no_store, outside, Setup}

-- Where the Maildirs of a sender stand.
abbrev pub all_maildir : ℕ
all_maildir = 0

abbrev pub failed_maildir : ℕ
failed_maildir = 1

abbrev pub new_maildir : Str → Maildir
new_maildir path = record { path = path; message_counter = 0 }

-- A `MessageStore`.
pub data MessageStore : Type 0 where
  memory : MessageStore
  disk : Maildir → MessageStore

-- A `MessageBuffer` as it is made; its summaries are rendered by a template if there is one.
pub record Summarizer : Type 0 where
  pub limits : Limits
  pub batch_expr : Str
  pub group_expr : Str
  pub from : Str
  pub store : MessageStore
  pub summary_template : Option Str
  pub batches : Batches

module _ (F : FileSystem) where
  abbrev pub created_or : {A : Type 0} → A → F.State × Bool → Result A × F.State
  created_or a (s, true) = (err outside, s)
  created_or a (s, false) = (ok a, s)

  -- `Store`
  unfoldable pub config_store : Config → F.State → Result MessageStore × F.State
  unfolding create
  config_store c s =
      if c.memory_store
      then (ok memory, s)
      else if is_empty c.message_store
      then (err no_store, s)
      else created_or (disk (new_maildir c.message_store))
          (create F (new_maildir c.message_store) s)

  -- `MakeWriter`: the store of a `MessageWriter`.
  unfoldable pub make_writer : Config → F.State → Result MessageStore × F.State
  unfolding config_store
  make_writer c s = config_store c s

  abbrev relay : Config → Upstream
  relay c =
      if eq_str c.relay_addr (bytes "debug")
      then debug
      else live (record { addr = c.relay_addr; user = c.relay_user; password = c.relay_password })

  -- `Upstream`
  unfoldable pub config_upstream : Config → F.State → Result Upstream × F.State
  unfolding create bytes
  config_upstream c s =
      if is_empty c.all_dir
      then (ok (relay c), s)
      else created_or (multi (first (to_maildir all_maildir) (first (relay c) no_more)))
          (create F (new_maildir c.all_dir) s)

  abbrev pub failing_to : Config → Result Upstream × F.State → Result (Upstream × ℕ) × F.State
  failing_to c (err e, s) = (err e, s)
  failing_to c (ok u, s) = created_or (u, failed_maildir) (create F (new_maildir c.fail_dir) s)

  -- `MakeSender`: the upstream, and where the Maildir of failed messages stands.
  unfoldable pub make_sender : Config → F.State → Result (Upstream × ℕ) × F.State
  unfolding config_upstream create
  make_sender c s = failing_to c (config_upstream c s)

  -- `SummaryRenderer`; `none` is a panic of `template.Must`.
  abbrev pub config_renderer : Setup → Config → Option (Option Str)
  config_renderer u c =
      if is_empty c.summary_template
      then some none
      else if u.parses_template c.summary_template
      then some (some c.summary_template)
      else none

  abbrev summarizer_of : Config → MessageStore → Option Str → Summarizer
  summarizer_of c store summary_template = record {
    limits = record { soft_limit = c.wait_period; hard_limit = c.max_wait };
    batch_expr = c.batch_expr;
    group_expr = c.group_expr;
    from = c.from;
    store = store;
    summary_template = summary_template;
    batches = new_batches;
  }

  abbrev pub rendered :
      Config → MessageStore → F.State → Option (Option Str) → Option (Result Summarizer × F.State)
  rendered c store s none = none
  rendered c store s (some t) = some (ok (summarizer_of c store t), s)

  abbrev pub summarizing :
      Setup → Config → Result MessageStore × F.State → Option (Result Summarizer × F.State)
  summarizing u c (err e, s) = some (err e, s)
  summarizing u c (ok store, s) =
      if u.parses_template c.batch_expr && u.parses_template c.group_expr
      then rendered c store s (config_renderer u c)
      else none

  -- `MakeSummarizer`
  unfoldable pub make_summarizer : Setup → Config → F.State → Option (Result Summarizer × F.State)
  unfolding config_store
  make_summarizer u c s = summarizing u c (config_store c s)
