-- ===== src/Http/Request.antt =====
-- include/carafe/http/request.hpp and src/http/request.cpp: the data of a request.
use carafe.Base.{
  Bool, true, false, Option, none, some, List, [], ◌∷◌, if◌then◌else◌, Bytes, codes, equal,
}
use carafe.Http.Headers.{Headers}

pub data Method : Type 0 where
  get head post put delete connect options trace patch : Method

pub data Version : Type 0 where
  http10 http11 : Version

-- `version == Version::Http10`
abbrev pub is_http10 : Version → Bool
is_http10 http10 = true
is_http10 http11 = false

pub record PathParam : Type 0 where
  pub name : Bytes
  pub value : Bytes

abbrev pub Params : Type 0
Params = List PathParam

-- `Params::get`: the first entry with this name.
pub params_get : Params → Bytes → Option Bytes
params_get [] name = none
params_get (entry ∷ entries) name =
    if equal entry.name name then some entry.value else params_get entries name

pub record Request : Type 0 where
  pub method : Method
  pub target : Bytes
  pub version : Version
  pub headers : Headers
  pub body : Bytes
  pub params : Params

-- `Request{}`: every member value-initialised.
abbrev pub empty_request : Request
empty_request = record {
  method = get;
  target = [];
  version = http10;
  headers = [];
  body = [];
  params = [];
}

pub record RequestLine : Type 0 where
  pub method : Method
  pub target : Bytes
  pub version : Version

unfoldable pub method_name : Method → Bytes
method_name get = codes "GET"
method_name head = codes "HEAD"
method_name post = codes "POST"
method_name put = codes "PUT"
method_name delete = codes "DELETE"
method_name connect = codes "CONNECT"
method_name options = codes "OPTIONS"
method_name trace = codes "TRACE"
method_name patch = codes "PATCH"
