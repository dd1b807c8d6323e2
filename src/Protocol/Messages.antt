-- ===== src/Protocol/Messages.antt =====
-- src/protocol/messages.rs: the messages on the wire, and the texts of errors. A text is kept as
-- its format string with the values put into it; a message that is shown by `{:?}` stays a message.
use Prim.Native.Char.{Char}
use rsqlite_rsync.Base.{ℕ, String, List}

-- One changed page: its 1-based number and its bytes.
pub record PageData : Type 0 where
  pub page_no : ℕ
  pub content : List ℕ

mutual
  pub data Message : Type 0 where
    hello : ℕ → ℕ → ℕ → Message
    hello_ack : ℕ → ℕ → ℕ → Message
    group_hashes : ℕ → List (List ℕ) → Message
    groups_need_fine : List ℕ → Message
    page_hashes : List ℕ → List (List ℕ) → Message
    send_pages : List PageData → Message
    pages_ack : List ℕ → Message
    done : Message
    error : Text → Message

  pub data Text : Type 0 where
    plain : String → Text
    format : String → List ℕ → Text
    format_sets : String → List ℕ → List ℕ → Text
    format_debug : String → Message → Text
    format_text : String → List (List Char) → Text

-- The protocol version of this build.
abbrev pub protocol_version : ℕ
protocol_version = 2

-- The upper bound for one framed message, 256 MiB.
abbrev pub max_message_size : ℕ
max_message_size = 268435456
