-- ===== src/Application/Ports.antt =====
-- tunnel_sync/application/ports.py: the capabilities that are handed to the executor. Cloudflare, the
-- shared volume and Docker are states of unknown types that these operations change.
use cf_docker_tunnel_sync.Base.{String, Bool, Option, List, ℕ}
use cf_docker_tunnel_sync.Base.Dict.{Dict}
use cf_docker_tunnel_sync.Base.Json.{Json}
use cf_docker_tunnel_sync.Domain.Models.{Rule, Comment}

-- The paths of the Cloudflare API that mutations go to, with the values formatted into them.
pub data Endpoint : Type 0 where
  configurations : String → String → Endpoint
  dns_records : String → Endpoint
  dns_record : String → Option String → Endpoint

pub data Method : Type 0 where
  post put delete : Method

-- The configuration of a tunnel: its ingress rules, if any, and the other keys.
pub record TunnelConfig : Type 0 where
  pub ingress : Option (List Rule)
  pub others : Dict Json

pub record RecordPayload : Type 0 where
  pub record_type : String
  pub name : String
  pub content : Option String
  pub proxied : Bool
  pub ttl : ℕ
  pub comment : Option Comment

pub data Payload : Type 0 where
  no_payload : Payload
  config : TunnelConfig → Payload
  dns : RecordPayload → Payload

pub record Call : Type 0 where
  pub endpoint : Endpoint
  pub method : Method
  pub payload : Payload

-- `CloudflareWriter.mutate`: it changes the remote state, and fails with a message or succeeds.
pub record Writer : Type 1 where
  pub World : Type 0
  pub mutate : World → Call → World × Option String
