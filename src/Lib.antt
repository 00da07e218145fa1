-- ===== src/Lib.antt =====
-- A model of modemproxy, which runs a farm of mobile modems as HTTP and SOCKS proxies.
--
-- The parts and how they interact. The database (modemproxy/db.py) keeps modems, their proxy
-- ports, customers, API keys, sticky sessions, rotations, traffic samples and the times of
-- alerts. The proxy generator (modemproxy/proxy/generator.py) hands out ports, writes one 3proxy
-- configuration for each modem, starts and stops their systemd units, and keeps a rotating pool
-- over the live ones. After each such operation it has publish (modemproxy/services/publish.py)
-- open the firewall or write the tunnels of a relay. The quota service
-- (modemproxy/services/quota.py) reads the traffic of the month from the samples
-- (modemproxy/services/bandwidth.py) and stops and starts proxies through the generator; the
-- subscription service (modemproxy/services/subscriptions.py) stops those whose time is up and
-- warns of those whose end is near; the auto-reboot service (modemproxy/services/autoreboot.py)
-- counts faults and reboots a modem. The last two send alerts (modemproxy/services/alerts.py),
-- which the database mutes when they repeat. The customers' panel
-- (modemproxy/services/customers.py) reads all of this, and modemproxy/services/geoip.py labels
-- the modems' addresses. The modem manager (modemproxy/modems/manager.py) finds modems and
-- rotates their addresses, over ModemManager (modemproxy/modems/control.py) or the net-mode
-- dongles (modemproxy/modems/netdev.py); a modem can be locked to radio bands
-- (modemproxy/modems/bands.py), which the health check (modemproxy/services/healthcheck.py)
-- watches. The web application (modemproxy/web/app.py) and the storefront's API
-- (modemproxy/web/compat.py) call all of these.
--
-- Which file models which part:
--   Db and its children: modemproxy/db.py. Db/Rows has the tables as records, and `Store` is the
--     database file; Modems, Ports, Sticky, Alerts, Keys, Customers, Rotation and Listing have the
--     functions of the same names. Table has the statements on a table with a text key.
--   Config: the fields of modemproxy/config.py's Config that the code reads, with their defaults.
--   Generator and its children: modemproxy/proxy/generator.py. Ports has allocate_port, Users the
--     extra logins, Pool and Sync the rotating pool, Proxy the operations on one proxy.
--   Bandwidth: modemproxy/services/bandwidth.py; Bandwidth/Sampling has sample, as sample_all.
--     Publish: modemproxy/services/publish.py.
--   Services/Quota, Services/Subscriptions, Services/Autoreboot: modemproxy/services/quota.py,
--     subscriptions.py and autoreboot.py. Services/Rounds: the loops of `check` in the first two.
--   Services/Customers, Services/Geoip: modemproxy/services/customers.py and geoip.py.
--   Services/Vpn: modemproxy/services/openvpn.py, whose _index is the generator's modem_index.
--   Services/Ttl: modemproxy/services/ttl.py, on the tables of an `Iptables`.
--   Services/Notify, Events: modemproxy/services/alerts.py. An alert is a value of `Event`.
--   Control: modemproxy/modems/control.py, with _mm_id_for. Netdev and
--     its children: modemproxy/modems/netdev.py. Http has _http, Zte the web interface of ZTE
--     devices with the shared session and the rotation, Sms their SMS,
--     Rotations the rotation of Huawei and Deco devices.
--   Manager and its children: modemproxy/modems/manager.py. Rounds has rotate_all and rotate_due,
--     Discovery has discover.
--   Bands: the masks and band lists of modemproxy/modems/bands.py; Bands/Lock has read, apply (as
--     lock_bands, and as apply_traced with what the device is told), clear and guard, Bands/Scan has scan. Healthcheck:
--     modemproxy/services/healthcheck.py, with the checks in Proxies and Site, and `run` in Run.
--   Web and its children: modemproxy/web/app.py. Auth has the guards, Pool the pool's API,
--     Rotation the three ways to ask for a rotation, Modems and Admin the other handlers, Cookies
--     the cookies of the routers' interfaces, Scans the threads that scan bands, Messages the
--     SMS, Radio the bands and OpenVPN profiles. A handler returns a `Reply`, or a `Talk` where
--     it talks to a device.
--   Compat and its children: modemproxy/web/compat.py. apply_named and purge_named are its
--     apply_port and purge_port, Calls has sequences of calls, Messages the SMS.
--   Prelude, Text and Result: shared names, texts with their encodings and the numbers in them,
--     and exceptions as values. Tests: runs on a small installation.
--
-- How it corresponds. A function that reads the clock takes the time `now`, one that reads the
-- configuration takes it; `time.time()` is the same throughout one call. A database call takes the
-- `Store` and returns the new one; one that can raise returns a `Result`. An operation on a proxy
-- takes a `System`, the database with the configuration, the generated files and the list of what
-- was done outside so far, and returns an `Outcome`: an exception leaves what was done before it.
-- A JSON column holds the value that its text stands for, and NULL is `none`.
--
-- A call to a ZTE device takes the requests that were made so far, the newest first, and returns
-- them with its own. The devices of a scan are one record for each moment at which they are
-- asked.
--
-- Loops. `while h in used: h += 1` runs for as many rounds as the largest used port is large plus
-- one; Generator/Ports/Search shows that it has then ended. Digits of a number are produced with
-- the number itself as the count of rounds. The bits of a band mask are read in 64 rounds, as in
-- the source, and a mask has at most 16 digits. The attempts of a rotation are counted down, and
-- the polls of an address go along the list of the answers until the time is up. All other loops
-- go along a list.
--
-- Parameters. The templates of jinja2, ipaddress, the user that runs the process, whether ufw is
-- installed and whether the configuration file can be written are the record `Host`; what the
-- `secrets` module returns is the record `Secrets`; the dates of datetime are the record
-- `Windows`; what takes a reboot command is the record `Rebooter`; the hash of a password and the
-- label of an address are arguments of the functions that use them. What a command line answers is a `Shell`
-- or `Commands`, what the devices answer the records `Field`, `Dongle` and `Device`, one for each
-- moment at which they are asked; base64 is the argument `decode`, and random.choice takes the
-- number drawn. What curl, json.loads and hashlib answer is the record `Web`, the ciphers of
-- pycryptodome are `Cipher`, and the counters of iptables and the kernel are `Meters`.
--
-- Not modelled: replies of a device that json.loads accepts but that are no object of texts, on which
-- the code raises, the SQL engine, the wording of alerts and what Telegram answers, reading and
-- writing YAML, the text of the templates and of frpc.toml around its tunnels, systemd, iptables
-- and ufw themselves, the signal status of devices, the
-- pages of the web application and its handlers of tests, settings and the tunnel, the forwarding
-- of a router's interface but for its cookies, the USSD, speed test and traffic texts of the
-- storefront's API, the command line, the script of the OpenVPN routes, the metrics and the self
-- tests. They are input and output, or left for later.
mod Prelude
pub mod Text
pub mod Result
pub mod Table
pub mod Config
pub mod Db
pub mod Events
pub mod Generator
pub mod Bandwidth
pub mod Publish
pub mod Services
pub mod Control
pub mod Netdev
pub mod Manager
pub mod Bands
pub mod Web
pub mod Compat
pub mod Healthcheck
mod Tests
