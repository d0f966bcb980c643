-- ===== src/Schemas.antt =====
-- app/schemas.py: the data that the components exchange. JSON objects, which the program keeps as
-- `dict[str, Any]`, are values of `Json`.
use kakao_x_termux.Prelude.{ℕ, String, Option, Bool}

mutual
  pub data Json : Type 0 where
    null : Json
    boolean : Bool → Json
    number : ℕ → Json
    text : String → Json
    array : Items → Json
    object : Fields → Json

  pub data Items : Type 0 where
    nil : Items
    cons : Json → Items → Items

  pub data Fields : Type 0 where
    end : Fields
    field : String → Json → Fields → Fields

pub data SourceType : Type 0 where
  real_kakao virtual_phone : SourceType

pub data MessageType : Type 0 where
  text_message : MessageType

pub record BridgeEvent : Type 0 where
  pub schema_version : ℕ
  pub event_id : String
  pub source : String
  pub source_package : String
  pub source_type : SourceType
  pub room_key : String
  pub room : String
  pub sender : Option String
  pub text : String
  pub message_type : MessageType
  pub received_at : ℕ
  pub notification_key : Option String
  pub reply_token : Option String
  pub reply_token_expires_at : Option ℕ
  pub token : String

pub data EventAction : Type 0 where
  reply queued none : EventAction

pub record EventResponse : Type 0 where
  pub ack : Bool
  pub action : EventAction
  pub reply_token : Option String
  pub text : Option String
  pub error : Option String

pub data BridgeMode : Type 0 where
  am_broadcast adb_broadcast http_test_backend noop : BridgeMode

pub record ReplyCommand : Type 0 where
  pub job_id : Option String
  pub room_key : String
  pub room : String
  pub text : String
  pub dedupe_key : Option String
  pub reply_token : Option String
  pub token : String
