-- ===== src/Messages/Empty.antt =====
-- EmptyKeymasterRequest, EmptyKeymasterResponse and SupportedAlgorithmsRequest of
-- android_keymaster_messages.h: messages without members, which are written as no bytes. The base
-- class's message_version is no part of the message.
use device_xiaomi_dash_twrp.Prelude.{ℕ}
use device_xiaomi_dash_twrp.Memory.{Put, Get, success}

-- A message without members.
pub record EmptyMessage : Type 0 where
  pub message_version : ℕ

-- SerializedSize, Serialize and Deserialize, and NonErrorSerializedSize, NonErrorSerialize and
-- NonErrorDeserialize
pub serialized_size : EmptyMessage → ℕ
serialized_size r = 0

pub serialize : EmptyMessage → Put
serialize r m buf end = (m, buf)

pub deserialize : Get EmptyMessage
deserialize m buf end r = success buf r
