-- ===== src/Npm.antt =====
-- services/npm.py, the client of Nginx Proxy Manager's REST API. `Api` has the server, a parameter
-- that edgekit does not implement, and the requests; `Client` the login and the request with its
-- one login in between; `Hosts`, `Certificates`, `Letsencrypt` and `Bootstrap` the methods built on
-- them.
pub mod Api
pub mod Client
pub mod Hosts
pub mod Certificates
pub mod Laws
pub mod Bootstrap
pub mod Letsencrypt
pub mod Challenge
