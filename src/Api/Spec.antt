-- ===== src/Api/Spec.antt =====
-- pkg/apis/configuration/v1/types.go: the specs of VirtualServers and VirtualServerRoutes. A pointer is
-- an Option; a map of labels is a list of its pairs.
use kubernetes_ingress.Prelude.{ℕ, ℤ, String, Bool, Option, List, StrMap}

pub record PolicyReference : Type 0 where
  pub name : String
  pub namespace : String

pub record Header : Type 0 where
  pub name : String
  pub value : String

pub record UpstreamBuffers : Type 0 where
  pub number : ℤ
  pub size : String

pub record HealthCheck : Type 0 where
  pub enable : Bool
  pub path : String
  pub interval : String
  pub jitter : String
  pub fails : ℤ
  pub passes : ℤ
  pub port : ℤ
  pub tls : Option Bool
  pub connect_timeout : String
  pub read_timeout : String
  pub send_timeout : String
  pub headers : List Header
  pub status_match : String

pub record SessionCookie : Type 0 where
  pub enable : Bool
  pub name : String
  pub path : String
  pub expires : String
  pub domain : String
  pub http_only : Bool
  pub secure : Bool

pub record UpstreamQueue : Type 0 where
  pub size : ℤ
  pub timeout : String

pub record Upstream : Type 0 where
  pub name : String
  pub service : String
  pub subselector : StrMap String
  pub port : ℕ
  pub lb_method : String
  pub fail_timeout : String
  pub max_fails : Option ℤ
  pub max_conns : Option ℤ
  pub keepalive : Option ℤ
  pub proxy_connect_timeout : String
  pub proxy_read_timeout : String
  pub proxy_send_timeout : String
  pub proxy_next_upstream : String
  pub proxy_next_upstream_timeout : String
  pub proxy_next_upstream_tries : ℤ
  pub proxy_buffering : Option Bool
  pub proxy_buffers : Option UpstreamBuffers
  pub proxy_buffer_size : String
  pub client_max_body_size : String
  pub tls : Bool
  pub health_check : Option HealthCheck
  pub slow_start : String
  pub queue : Option UpstreamQueue
  pub session_cookie : Option SessionCookie

pub record ActionRedirect : Type 0 where
  pub url : String
  pub code : ℤ

pub record ActionReturn : Type 0 where
  pub code : ℤ
  pub return_type : String
  pub body : String

pub record ProxyRequestHeaders : Type 0 where
  pub pass : Option Bool
  pub set : List Header

pub record AddHeader : Type 0 where
  pub header : Header
  pub always : Bool

pub record ProxyResponseHeaders : Type 0 where
  pub hide : List String
  pub pass : List String
  pub ignore : List String
  pub add : List AddHeader

pub record ActionProxy : Type 0 where
  pub upstream : String
  pub rewrite_path : String
  pub request_headers : Option ProxyRequestHeaders
  pub response_headers : Option ProxyResponseHeaders

pub record Action : Type 0 where
  pub pass : String
  pub redirect : Option ActionRedirect
  pub return_ : Option ActionReturn
  pub proxy : Option ActionProxy

pub record Split : Type 0 where
  pub weight : ℤ
  pub action : Option Action

pub record Condition : Type 0 where
  pub header : String
  pub cookie : String
  pub argument : String
  pub variable : String
  pub value : String

pub record Match : Type 0 where
  pub conditions : List Condition
  pub action : Option Action
  pub splits : List Split

pub record ErrorPageReturn : Type 0 where
  pub action_return : ActionReturn
  pub headers : List Header

pub record ErrorPage : Type 0 where
  pub codes : List ℤ
  pub return_ : Option ErrorPageReturn
  pub redirect : Option ActionRedirect

pub record Route : Type 0 where
  pub path : String
  pub policies : List PolicyReference
  pub route : String
  pub action : Option Action
  pub splits : List Split
  pub matches : List Match
  pub error_pages : List ErrorPage

pub record TlsRedirect : Type 0 where
  pub enable : Bool
  pub code : Option ℤ
  pub based_on : String

pub record Tls : Type 0 where
  pub secret : String
  pub redirect : Option TlsRedirect
